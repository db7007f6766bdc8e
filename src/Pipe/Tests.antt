-- ===== src/Pipe/Tests.antt =====
-- The theorems on pipes at a pipe whose counters are about to wrap.
use pplottery.Prelude.{ℕ, ◌+◌, true, Option, some, replicate}
use pplottery.Pipe.{Pipe}

abbrev pipe : Pipe
pipe = record {
  data_bytes = replicate 512 7;
  nread = 0xffff_fffe;
  nwrite = 0xffff_ffff;
  readopen = true;
  writeopen = true;
}

abbrev letters : ℕ → Option ℕ
letters i = some (i + 97)
