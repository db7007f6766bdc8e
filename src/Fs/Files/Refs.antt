-- ===== src/Fs/Files/Refs.antt =====
-- fs.c: what `readi` and `writei` do to the reference counts of inodes.
use pplottery.Prelude.{
  ℕ, zero, suc, ◌+◌, ◌-◌, ◌*◌, ◌/◌, ◌%◌, ◌≡◌, inl, inr, refl, ◌∙◌, ◌||◌, ◌==◌, if◌then◌else◌, ok,
  get_elem?, Bool-cases, Option-cases, Result-cases, ltb, add32, min,
}
use pplottery.Fs.{Fs, ◌>>◌, Inode, bsize, log_write}
use pplottery.Fs.Itable.{bmap, iupdate, on_table, modify, ndirect, nindirect}
use pplottery.Fs.Itable.Refs.{modify-SameRefs}
use pplottery.Fs.Itable.Keeps.{Keeps, Keeps-after, Keeps-next, Keeps-ok, bmap-Keeps, iupdate-Keeps}
use pplottery.Fs.Files.{readi, readi_from, chunk, writei, writei_from, write_block, extended}

readi_from-Keeps :
    (fuel tot off n i : ℕ) (copied : ℕ → ℕ → ℕ) (s : Fs)
    → Keeps s (readi_from fuel tot off n i copied s)
unfolding readi_from
readi_from-Keeps zero tot off n i copied s = λ k. refl
readi_from-Keeps (suc fuel) tot off n i copied s = elim (Bool-cases (ltb tot n)) [
  | inr end ↦ rw end (λ k. refl)
  | inl more ↦ elim (Result-cases (bmap i (off / bsize) s)) [
    | inl e ↦ rw (more, e) tt
    | inr ((addr, t), e) ↦
        let same = Keeps-ok s t (bmap i (off / bsize) s) (bmap-Keeps i (off / bsize) s) e in
        elim (Bool-cases (addr == 0)) [
          | inl z ↦ rw (more, e, z) same
          | inr z ↦
              elim (Bool-cases
                (ltb (min (copied tot (chunk tot off n)) (chunk tot off n)) (chunk tot off n))) [
                  | inl short ↦ rw (more, e, z, short) same
                  | inr whole ↦
                      let next =
                        readi_from fuel (tot + chunk tot off n) (off + chunk tot off n) n i copied
                          t in
                      let ih =
                        readi_from-Keeps fuel (tot + chunk tot off n) (off + chunk tot off n) n i
                          copied t in
                      elim (Result-cases next) [
                        | inl f ↦ rw (more, e, z, whole, f) tt
                        | inr (((r, rest), u), f) ↦
                            rw (more, e, z, whole, f) (λ k. Keeps-ok t u next ih f k ∙ same k)
                      ]
                ]
        ]
  ]
]

pub readi-Keeps : (i off n : ℕ) (copied : ℕ → ℕ → ℕ) (s : Fs) → Keeps s (readi i off n copied s)
unfolding readi
readi-Keeps i off n copied s = elim (Option-cases (get_elem? s.itable i)) [
  | inl e ↦ rw (readi, e) tt
  | inr (ip, e) ↦ elim (Bool-cases (ltb ip.copy.size off || ltb (add32 off n) off)) [
    | inl bad ↦ rw (readi, e, bad) (λ k. refl)
    | inr good ↦
        rw (readi, e, good)
          (readi_from-Keeps (if ltb ip.copy.size (add32 off n) then ip.copy.size - off else n) 0 off
            (if ltb ip.copy.size (add32 off n) then ip.copy.size - off else n) i copied s)
  ]
]

writei_from-Keeps :
    (fuel tot off n i : ℕ) (src : ℕ → ℕ) (copied : ℕ → ℕ → ℕ) (s : Fs)
    → Keeps s (writei_from fuel tot off n i src copied s)
unfolding writei_from
writei_from-Keeps zero tot off n i src copied s = λ k. refl
writei_from-Keeps (suc fuel) tot off n i src copied s = elim (Bool-cases (ltb tot n)) [
  | inr end ↦ rw end (λ k. refl)
  | inl more ↦ elim (Result-cases (bmap i (off / bsize) s)) [
    | inl e ↦ rw (more, e) tt
    | inr ((addr, t), e) ↦
        let same = Keeps-ok s t (bmap i (off / bsize) s) (bmap-Keeps i (off / bsize) s) e in
        let m = chunk tot off n in
        elim (Bool-cases (addr == 0)) [
          | inl z ↦ rw (more, e, z) same
          | inr z ↦ elim (Bool-cases (ltb (min (copied tot m) m) m)) [
            | inl short ↦ rw (more, e, z, short) same
            | inr whole ↦
                let u =
                  log_write addr (
                    write_block addr (min (copied tot m) m) (off % bsize) (λ x. src (tot + x)) t) in
                rw (more, e, z, whole)
                  (Keeps-after s u (writei_from fuel (tot + m) (off + m) n i src copied u) same
                    (writei_from-Keeps fuel (tot + m) (off + m) n i src copied u))
          ]
        ]
  ]
]

extended-ref : (off : ℕ) (p : Inode) → (extended off p).ref ≡ p.ref
extended-ref off p = elim (Bool-cases (ltb p.copy.size off)) [
  | inl longer ↦ rw longer refl
  | inr fits ↦ rw fits refl
]

-- The end of `writei`.
finish-Keeps :
    (i tot off : ℕ) (t : Fs)
    → Keeps t ((iupdate i >> (λ u. ok (tot, u))) (on_table (modify i (extended off)) t))
finish-Keeps i tot off t =
    let t' = on_table (modify i (extended off)) t in
    Keeps-after t t' ((iupdate i >> (λ u. ok (tot, u))) t')
      (modify-SameRefs i (extended off) t (extended-ref off))
      (Keeps-next t' (iupdate i) (λ u. ok (tot, u)) (iupdate-Keeps i t') (λ u k. refl))

pub writei-Keeps :
    (i off n : ℕ) (src : ℕ → ℕ) (copied : ℕ → ℕ → ℕ) (s : Fs)
    → Keeps s (writei i off n src copied s)
unfolding writei
writei-Keeps i off n src copied s = elim (Option-cases (get_elem? s.itable i)) [
  | inl e ↦ rw (writei, e) tt
  | inr (ip, e) ↦ elim (Bool-cases (ltb ip.copy.size off || ltb (add32 off n) off)) [
    | inl bad ↦ rw (writei, e, bad) (λ k. refl)
    | inr good ↦ elim (Bool-cases (ltb ((ndirect + nindirect) * bsize) (add32 off n))) [
      | inl large ↦ rw (writei, e, good, large) (λ k. refl)
      | inr fits ↦ elim (Result-cases (writei_from n 0 off n i src copied s)) [
        | inl f ↦ rw (writei, e, good, fits, f) tt
        | inr (((tot, off'), t), f) ↦
            let same =
              Keeps-ok s t (writei_from n 0 off n i src copied s)
                (writei_from-Keeps n 0 off n i src copied s) f in
            rw (writei, e, good, fits, f)
              (Keeps-after s t
                ((iupdate i >> (λ u. ok (tot, u))) (on_table (modify i (extended off')) t)) same
                (finish-Keeps i tot off' t))
      ]
    ]
  ]
]
