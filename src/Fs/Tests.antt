-- ===== src/Fs/Tests.antt =====
-- The theorems on the file system at a small disk, with the root directory and one more inode in use.
use pplottery.Prelude.{
  ℕ, zero, suc, ◌≡◌, ◌≢◌, true, false, List, [], ◌∷◌, if◌then◌else◌, ◌==◌, ok, panic, arith,
}
use pplottery.Fs.{Fs, Dinode, Inode, balloc, bfree}
use pplottery.Fs.Bitmap.{used, IsBytes, bfree-balloc}
use pplottery.Fs.Itable.{iput, empty_dinode}
use pplottery.Fs.Itable.Refs.{Bounded}
use pplottery.Fs.Itable.Gives.{Gives, iput-Gives, Finds}
use pplottery.Fs.Names.{namex, namex_from}
use pplottery.Fs.Names.Elements.{elements, Takes, skipelem-elements}
use pplottery.Fs.Names.Refs.{place, namex-Finds}
use pplottery.Fs.Names.Fuel.{namex_from-enough}

abbrev directory : Dinode
directory = record empty_dinode { type = 1; nlink = 1; size = 32; addrs = 5 ∷ [] }

abbrev in_use : (inum ref : ℕ) → Dinode → Inode
in_use inum ref copy = record {
  dev = 1;
  inum = inum;
  ref = ref;
  lock = record { locked = false; pid = 0 };
  valid = true;
  copy = copy;
}

abbrev small_disk : Fs
small_disk = record {
  sb = record { size = 20; ninodes = 3; inodestart = 2; bmapstart = 3 };
  bitmap = (λ k. if k == 0 then 63 else 0);
  dinodes = (λ i. directory);
  data_bytes = (λ b i. if i == 2 then b'a' else if i == 0 then 2 else 0);
  logged = [];
  itable =
      in_use 1 1 directory
      ∷ in_use 2 1 (record directory { nlink = 0 })
      ∷ in_use 0 0 directory
      ∷ [];
}

bytes : IsBytes small_disk
bytes zero = ground arith
bytes (suc k) = ground arith

counts : Bounded 2 small_disk
counts zero = omega arith
counts (suc zero) = omega arith
counts (suc (suc zero)) = omega arith
counts (suc (suc (suc k))) = omega arith

bfree-balloc_example :
    (used 3 small_disk ≡ false → bfree 3 small_disk ≡ panic)
    × (used 3 small_disk ≡ true
        → (t : Fs) × (bfree 3 small_disk ≡ ok (tt, t))
          × IsBytes t
          × ((d : ℕ) → used d t ≡ (if 3 == d then false else used d small_disk)))
    × ((balloc small_disk).0 ≢ 0
        → (t : Fs) × (bfree (balloc small_disk).0 (balloc small_disk).1 ≡ ok (tt, t))
          × ((d : ℕ) → used d t ≡ used d small_disk))
bfree-balloc_example = bfree-balloc small_disk 3 bytes

iput-Gives_example : Gives 1 small_disk (iput 1 small_disk)
iput-Gives_example = iput-Gives 1 small_disk (λ k. omega (arith, counts k)) (omega arith)

abbrev slash_a : List ℕ
slash_a = b'/' ∷ b'a' ∷ []

abbrev slash_a_b : List ℕ
slash_a_b = b'/' ∷ b'a' ∷ b'/' ∷ b'b' ∷ []

skipelem-elements_example : Takes (elements slash_a_b) slash_a_b []
skipelem-elements_example = skipelem-elements slash_a_b []

namex-Finds_example : Finds place small_disk (namex 1 0 false slash_a [] small_disk)
namex-Finds_example = namex-Finds 1 0 false slash_a [] small_disk counts (omega arith)

namex_from-enough_example :
    namex_from 3 1 0 false slash_a [] small_disk ≡ namex_from 9 1 0 false slash_a [] small_disk
namex_from-enough_example =
    namex_from-enough 3 9 1 0 false slash_a [] small_disk (omega arith) (omega arith)
