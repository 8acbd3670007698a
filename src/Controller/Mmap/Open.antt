-- ===== src/Controller/Mmap/Open.antt =====
-- controller/mmap.cpp, `mmap::open` and `mmap::close` on Windows, and what the process holds of the
-- system. The branch for other systems does not compile.
pub mod Handles
use xsky.Base.{
  ℕ, ◌+◌, ◌-◌, ◌%◌, ◌^◌, List, [], ◌++◌, Bool, true, false, Option, none, some, length, take,
  replicate, ◌==◌, if◌then◌else◌,
}
use xsky.Controller.Mmap.{Mmap}

-- Which calls succeed: `CreateFileA`, `CreateFileMappingA` and `MapViewOfFile`.
pub record Outcome : Type 0 where
  pub file : Bool
  pub mapping : Bool
  pub view : Bool

-- `INVALID_HANDLE_VALUE` is what a failed `CreateFileA` returns.
pub data File : Type 0 where
  null invalid handle : File

-- The members `_file`, `_mapping`, `_size` and `_address`, with the bytes that the last points to.
pub record Private : Type 0 where
  pub file : File
  pub mapping : Bool
  pub size : ℕ
  pub address : Option Mmap

abbrev pub null_private : Private
null_private = record { file = null; mapping = false; size = 0; address = none }

-- How many handles and views the process holds.
pub record State : Type 0 where
  pub members : Private
  pub files : ℕ
  pub mappings : ℕ
  pub views : ℕ

-- The constructor.
abbrev pub fresh_state : State
fresh_state = record { members = null_private; files = 0; mappings = 0; views = 0 }

-- What is given back of a kind: one, where the member is set.
abbrev pub held_file : File → ℕ
held_file null = 0
held_file invalid = 0
held_file handle = 1

abbrev pub held_mapping : Bool → ℕ
held_mapping true = 1
held_mapping false = 0

abbrev pub held_view : Option Mmap → ℕ
held_view none = 0
held_view (some m) = 1

-- `CloseHandle( INVALID_HANDLE_VALUE )` fails and does nothing.
unfoldable pub close_map : State → State
close_map s = record {
  members = null_private;
  files = s.files - held_file s.members.file;
  mappings = s.mappings - held_mapping s.members.mapping;
  views = s.views - held_view s.members.address;
}

-- The size of a mapping, for the two halves that the code passes: the upper one is what a cast to 32
-- bits leaves of `size & 0xFFFFFFFF00000000`, which is 0. A size of 0 is that of the file.
unfoldable pub mapped_size : (contents : List ℕ) → (size : ℕ) → ℕ
mapped_size contents size = let low = size % 2 ^ 32 in if low == 0 then length contents else low

-- A file that is shorter than the mapping is filled with zeros. Without a file the mapping is one of
-- the paging file.
unfoldable pub view_of : (has_file : Bool) → (contents : List ℕ) → (size : ℕ) → Mmap
view_of has_file contents size =
    let bytes = if has_file then contents else [] in
    let n = mapped_size bytes size in record { address = take n (bytes ++ replicate n 0) }

-- `contents` are the bytes of the file, none where the code has just created it. A handle of a file
-- whose mapping fails is not stored.
unfoldable pub open_map : Outcome → (contents : List ℕ) → (size : ℕ) → State → Bool × State
open_map o contents size s =
    let closed = close_map s in
    let files = if o.file then closed.files + 1 else closed.files in
    let members : Private = record {
      file = if o.file then handle else invalid;
      mapping = true;
      size = size;
      address = if o.view then some (view_of o.file contents size) else none;
    } in
    if o.mapping
    then (
      true,
      record {
        members = members;
        files = files;
        mappings = closed.mappings + 1;
        views = if o.view then closed.views + 1 else closed.views;
      },
    )
    else (false, record closed { files = files })

-- What `read` and `write` see: through a null pointer nothing.
abbrev pub bits : Option Mmap → Mmap
bits none = record { address = [] }
bits (some m) = m
