-- ===== src/Sky/Lifecycle/Pages.antt =====
-- server/server.c: the pages of the route table from their allocation to the end of the module.
use xsky.Base.{◌≡◌, some, length}
use xsky.Sky.Data.{bucket_size}
use xsky.Sky.Table.{Routes}
use xsky.Sky.Table.Shape.{count_pages}
use xsky.Sky.Lifecycle.{Host}

-- There are buckets, and every page that is allocated stands in them.
record IsAccounted (h : Host) : Type 0 where
  pub table : Routes
  pub given : h.routes ≡ some table
  pub buckets : length table ≡ bucket_size
  pub counted : h.pages ≡ count_pages table
