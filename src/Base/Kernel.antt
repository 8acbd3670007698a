-- ===== src/Base/Kernel.antt =====
-- Netfilter verdicts and error numbers of the Linux kernel, as the hooks and handlers return them.
pub data Verdict : Type 0 where
  nf_drop nf_accept nf_queue : Verdict

pub data Errno : Type 0 where
  einval ebusy eagain efault enoent : Errno
