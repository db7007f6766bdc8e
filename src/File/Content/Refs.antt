-- ===== src/File/Content/Refs.antt =====
-- file.c: what reading and writing an open inode does to the reference counts of inodes.
use pplottery.Prelude.{
  ℕ, zero, suc, ◌+◌, ◌-◌, ◌≡◌, inl, inr, refl, Option, ◌==◌, ok, Bool-cases, Result-cases, min,
  slt32,
}
use pplottery.File.{File, fd_inode}
use pplottery.File.Content.{moved, max_write, read_inode, fileread, write_rounds, filewrite}
use pplottery.Fs.{Fs, M, ◌>>=◌, ◌>>◌}
use pplottery.Fs.Itable.{ilock, iunlock}
use pplottery.Fs.Itable.Keeps.{
  Keeps, Keeps-after, Keeps-ok, Keeps-then, Keeps-next, ilock-Keeps, iunlock-Keeps,
}
use pplottery.Fs.Files.{readi, writei}
use pplottery.Fs.Files.Refs.{readi-Keeps, writei-Keeps}

-- A step between a lock and an unlock of the inode.
locked_step :
    {A B : Type 0} (me i : ℕ) (m : M A) (g : A → B) (s : Fs)
    → ((t : Fs) → Keeps t (m t))
    → Keeps s ((ilock me i >> (m >>= (λ r. iunlock me i >> (λ t. ok (g r, t))))) s)
locked_step me i m g s keeps =
    Keeps-next s (ilock me i) (m >>= (λ r. iunlock me i >> (λ t. ok (g r, t)))) (ilock-Keeps me i s)
      (λ t.
        Keeps-then t m (λ r. iunlock me i >> (λ u. ok (g r, u))) (keeps t)
          (λ r u e.
            Keeps-next u (iunlock me i) (λ v. ok (g r, v)) (iunlock-Keeps me i u) (λ v k. refl)))

write_rounds-Keeps :
    (fuel i me n : ℕ) (src : ℕ → ℕ) (copied : ℕ → ℕ → ℕ) (f : File) (s : Fs)
    → Keeps s (write_rounds fuel i me n src copied f s)
unfolding write_rounds
write_rounds-Keeps zero i me n src copied f s = λ k. refl
write_rounds-Keeps (suc fuel) i me n src copied f s =
    let n1 = min (n - i) max_write in
    let write : M ℕ = writei f.ip f.off n1 (λ x. src (i + x)) (λ tot m. copied (i + tot) m) in
    let round : M ℕ = ilock me f.ip >> (write >>= (λ r. iunlock me f.ip >> (λ t. ok (r, t)))) in
    let kept : Keeps s (round s) =
      locked_step me f.ip write (λ r. r) s
        (writei-Keeps f.ip f.off n1 (λ x. src (i + x)) (λ tot m. copied (i + tot) m)) in
    elim (Bool-cases (slt32 i n)) [
      | inr end ↦ rw end (λ k. refl)
      | inl more ↦ elim (Result-cases (round s)) [
        | inl e ↦ rw (more, e) tt
        | inr ((r, t), e) ↦
            let same = Keeps-ok s t (round s) kept e in
            elim (Bool-cases (r == n1)) [
              | inr short ↦ rw (more, e, short) same
              | inl whole ↦
                  rw (more, e, whole)
                    (Keeps-after s t (write_rounds fuel (i + r) me n src copied (moved r f) t) same
                      (write_rounds-Keeps fuel (i + r) me n src copied (moved r f) t))
            ]
      ]
    ]

fileread-Keeps :
    (me n : ℕ) (copied : ℕ → ℕ → ℕ) (piperead : ℕ → M ℕ) (devs : ℕ → Option (M ℕ)) (f : File)
    (s : Fs)
    → f.type ≡ fd_inode
    → Keeps s (fileread me n copied piperead devs f s)
unfolding fileread read_inode
fileread-Keeps me n copied piperead devs f s inode = elim (Bool-cases f.readable) [
  | inr shut ↦ rw (fileread, shut) (λ k. refl)
  | inl open_file ↦
      rw (fileread, open_file, inode)
        (locked_step me f.ip (readi f.ip f.off n copied) (λ r. (r.0, moved r.0 f)) s
          (readi-Keeps f.ip f.off n copied))
]

filewrite-Keeps :
    (me n : ℕ) (src : ℕ → ℕ) (copied : ℕ → ℕ → ℕ) (pipewrite : ℕ → M ℕ) (devs : ℕ → Option (M ℕ))
    (f : File) (s : Fs)
    → f.type ≡ fd_inode
    → Keeps s (filewrite me n src copied pipewrite devs f s)
unfolding filewrite
filewrite-Keeps me n src copied pipewrite devs f s inode = elim (Bool-cases f.writable) [
  | inr shut ↦ rw (filewrite, shut) (λ k. refl)
  | inl open_file ↦ elim (Result-cases (write_rounds n 0 me n src copied f s)) [
    | inl e ↦ rw (filewrite, open_file, inode, e) tt
    | inr (((i, g), t), e) ↦
        rw (filewrite, open_file, inode, e)
          (Keeps-ok s t (write_rounds n 0 me n src copied f s)
            (write_rounds-Keeps n 0 me n src copied f s) e)
  ]
]

-- Reading and writing an open inode, in however many transactions, leaves the reference counts of
-- all inodes as they were, whether the call succeeds, stops in the middle or fails; it may panic.
fileread-filewrite-Keeps :
    (me n : ℕ) (src : ℕ → ℕ) (copied : ℕ → ℕ → ℕ) (pipe_call : ℕ → M ℕ) (devs : ℕ → Option (M ℕ))
    (f : File) (s : Fs)
    → f.type ≡ fd_inode
    → Keeps s (fileread me n copied pipe_call devs f s)
      × Keeps s (filewrite me n src copied pipe_call devs f s)
fileread-filewrite-Keeps me n src copied pipe_call devs f s inode = (
  fileread-Keeps me n copied pipe_call devs f s inode,
  filewrite-Keeps me n src copied pipe_call devs f s inode,
)
