-- ===== src/Fs/Names/Refs.antt =====
-- fs.c: what `namex` does to the reference counts of inodes.
use pplottery.Prelude.{
  replicate, ℕ, zero, suc, ◌+◌, ◌^◌, ◌<◌, ◌≡◌, inl, inr, refl, ◌∙◌, Bool, true, false, not, ◌&&◌,
  Option, none, some, List, [], ◌∷◌, ◌==◌, Result, ok, panic, arith, get_elem?, Bool-cases,
  Option-cases, Result-cases, ==_iff, length,
}
use pplottery.Fs.{Fs, M, ◌>>=◌, ◌>>◌}
use pplottery.Fs.Itable.{iget, ilock, iunlock, iput, iunlockput}
use pplottery.Fs.Itable.Refs.{ref_at, SameRefs, MoreRefs, at_slot, Bounded, Gets, iget-Gets}
use pplottery.Fs.Itable.Keeps.{Keeps-ok, ilock-Keeps, iunlock-Keeps}
use pplottery.Fs.Itable.Gives.{Gives, iput-Gives, iunlockput-Gives, Starts, idup-Starts, Finds}
use pplottery.Fs.Dirs.{dirlookup, t_dir, dirsiz}
use pplottery.Fs.Dirs.Refs.{slot_of, dirlookup-Finds}
use pplottery.Fs.Names.{skipelem, first_inode, namex, namex_from, namei, nameiparent}

abbrev at_option : Option ℕ → ℕ → ℕ
at_option none k = 0
at_option (some i) k = at_slot i k

-- A result, unless it is a panic, has a reference less in slot `i` and one more in the slot it returns.
abbrev Trades : ℕ → Fs → Result ((Option ℕ × List ℕ) × Fs) → Type 0
Trades i s panic = Unit {0}
Trades i s (ok ((slot, name), t)) =
    (k : ℕ) → ref_at k t.itable + at_slot i k ≡ ref_at k s.itable + at_option slot k

-- The counts during the loop, which owns a reference of slot `i`: without that one they can grow by two.
abbrev Owns : ℕ → Fs → Type 0
Owns i s = (0 < ref_at i s.itable) × ((k : ℕ) → ref_at k s.itable + 2 < 2 ^ 31 + at_slot i k)

Owns-Bounded : (i : ℕ) (s : Fs) → Owns i s → Bounded 1 s
Owns-Bounded i s owns k = ground (arith, owns.1 k)

Owns-same : (i : ℕ) (s t : Fs) → Owns i s → SameRefs s t → Owns i t
Owns-same i s t (held, room) same =
    (omega (arith, held, same i), λ k. omega (arith, room k, same k))

leave_lem :
    (me i : ℕ) (name : List ℕ) (s v : Fs)
    → Owns i s
    → SameRefs s v
    → Trades i s ((iunlockput me i >> (λ u. ok ((none, name), u))) v)
leave_lem me i name s v owns same = elim (Result-cases (iunlockput me i v)) [
  | inl e ↦ rw (e, ◌>>◌) tt
  | inr ((x, u), e) ↦
      let own_v = Owns-same i s v owns same in
      let gives : Gives i v (ok (x, u)) =
        rw e at (iunlockput-Gives me i v (λ k. omega (arith, Owns-Bounded i v own_v k)) own_v.0) in
      rw (e, ◌>>◌) (λ k. omega (arith, gives k, same k))
]

stop_lem :
    (me i : ℕ) (name : List ℕ) (s v : Fs)
    → SameRefs s v
    → Trades i s ((iunlock me i >> (λ u. ok ((some i, name), u))) v)
stop_lem me i name s v same = elim (Result-cases (iunlock me i v)) [
  | inl e ↦ rw (e, ◌>>◌) tt
  | inr ((x, u), e) ↦
      let same_u = Keeps-ok v u (iunlock me i v) (iunlock-Keeps me i v) e in
      rw (e, ◌>>◌) (λ k. omega (arith, same_u k, same k))
]

up_lem :
    (i : ℕ) (name : List ℕ) (s : Fs)
    → Owns i s
    → Trades i s ((iput i >> (λ u. ok ((none, name), u))) s)
up_lem i name s owns = elim (Result-cases (iput i s)) [
  | inl e ↦ rw (e, ◌>>◌) tt
  | inr ((x, u), e) ↦
      let gives : Gives i s (ok (x, u)) =
        rw e at (iput-Gives i s (λ k. omega (arith, Owns-Bounded i s owns k)) owns.0) in
      rw (e, ◌>>◌) (λ k. omega (arith, gives k))
]

Trades-after :
    (i j : ℕ) (s t : Fs) (r : Result ((Option ℕ × List ℕ) × Fs))
    → ((k : ℕ) → ref_at k t.itable + at_slot i k ≡ ref_at k s.itable + at_slot j k)
    → Trades j t r
    → Trades i s r
Trades-after i j s t panic h trades = tt
Trades-after i j s t (ok ((slot, name), u)) h trades = λ k. omega (arith, h k, trades k)

down_lem :
    (me i j : ℕ) (m : M (Option ℕ × List ℕ)) (s v : Fs)
    → Owns i s
    → MoreRefs j s v
    → ((u : Fs) → Owns j u → Trades j u (m u))
    → Trades i s ((iunlockput me i >> m) v)
down_lem me i j m s v owns more ih = elim (Result-cases (iunlockput me i v)) [
  | inl e ↦ rw (e, ◌>>◌) tt
  | inr ((x, u), e) ↦
      let small : Bounded 0 v = (λ k. ground (arith, owns.1 k, more k, ==_iff i k)) in
      let gives : Gives i v (ok (x, u)) =
        rw e at (iunlockput-Gives me i v small (ground (arith, owns.0, more i))) in
      let moved : (k : ℕ) → ref_at k u.itable + at_slot i k ≡ ref_at k s.itable + at_slot j k =
        (λ k. omega (arith, gives k, more k)) in
      let held : 0 < ref_at j u.itable = ground (arith, moved j, owns.0, ==_iff i j, ==_iff j j) in
      rw (e, ◌>>◌)
        (Trades-after i j s u (m u) moved (ih u (held, λ k. omega (arith, moved k, owns.1 k))))
]

-- The round of the loop, from the locked directory in slot `i` on.
look_lem :
    (me i : ℕ) (name rest : List ℕ) (fuel : ℕ) (parent : Bool) (s t : Fs)
    → Owns i s
    → SameRefs s t
    → ((j : ℕ) (u : Fs) → Owns j u → Trades j u (namex_from fuel me j parent rest name u))
    → Trades i s (elim (dirlookup i name t) [
      | panic ↦ panic
      | ok (none, v) ↦ (iunlockput me i >> (λ u. ok ((none, name), u))) v
      | ok (some (j, off), v) ↦ (iunlockput me i >> namex_from fuel me j parent rest name) v
    ])
look_lem me i name rest fuel parent s t owns same ih =
    let small : Bounded 1 t = Owns-Bounded i t (Owns-same i s t owns same) in
    elim (Result-cases (dirlookup i name t)) [
      | inl e ↦ rw e tt
      | inr ((none, v), e) ↦
          let found : Finds slot_of t (ok (none, v)) = rw e at (dirlookup-Finds i name t small) in
          rw e (leave_lem me i name s v owns (λ k. found k ∙ same k))
      | inr ((some (j, off), v), e) ↦
          let found : Finds slot_of t (ok (some (j, off), v)) =
            rw e at (dirlookup-Finds i name t small) in
          rw e (
            down_lem me i j (namex_from fuel me j parent rest name) s v owns
              (λ k. omega (arith, found k, same k)) (ih j))
    ]

namex_from-Trades :
    (fuel me i : ℕ) (parent : Bool) (path name : List ℕ) (s : Fs)
    → Owns i s
    → Trades i s (namex_from fuel me i parent path name s)
unfolding namex_from
namex_from-Trades zero me i parent path name s owns = tt
namex_from-Trades (suc fuel) me i parent path name s owns =
    elim (Option-cases (skipelem path name)) [
      | inl e ↦ elim (Bool-cases parent) [
        | inl up ↦ rw (e, up, namex_from) (up_lem i name s owns)
        | inr whole ↦ rw (e, whole, namex_from) (λ k. refl)
      ]
      | inr ((rest, name'), e) ↦ elim (Result-cases (ilock me i s)) [
        | inl f ↦ rw (e, f, namex_from) tt
        | inr ((x, t), f) ↦
            let same = Keeps-ok s t (ilock me i s) (ilock-Keeps me i s) f in
            elim (Option-cases (get_elem? t.itable i)) [
              | inl g ↦ rw (e, f, g, namex_from) tt
              | inr (ip, g) ↦ elim (Bool-cases (not (ip.copy.type == t_dir))) [
                | inl bad ↦ rw (e, f, g, bad, namex_from) (leave_lem me i name' s t owns same)
                | inr dir ↦
                    elim (Bool-cases (parent && (elim rest [ [] ↦ true | c ∷ cs ↦ false ]))) [
                      | inl end ↦ rw (e, f, g, dir, end, namex_from) (stop_lem me i name' s t same)
                      | inr on ↦
                          rw (e, f, g, dir, on, namex_from)
                            (look_lem me i name' rest fuel parent s t owns same
                              (λ j u own. namex_from-Trades fuel me j parent rest name' u own))
                    ]
              ]
            ]
      ]
    ]

iget-Starts : (dev inum : ℕ) (s : Fs) → Bounded 1 s → Starts s (iget dev inum s)
iget-Starts dev inum s small = elim (Result-cases (iget dev inum s)) [
  | inl e ↦ rw e tt
  | inr ((i, t), e) ↦
      let gets : Gets dev inum s (ok (i, t)) = rw e at (iget-Gets dev inum s small) in rw e (gets.0)
]

first_inode-Starts :
    (cwd : ℕ) (path : List ℕ) (s : Fs)
    → Bounded 1 s
    → 0 < ref_at cwd s.itable
    → Starts s (first_inode cwd path s)
unfolding first_inode
first_inode-Starts cwd [] s small held = idup-Starts cwd s small held
first_inode-Starts cwd (c ∷ cs) s small held = elim (Bool-cases (c == b'/')) [
  | inl root ↦ rw (root, first_inode) (iget-Starts 1 1 s small)
  | inr other ↦ rw (other, first_inode) (idup-Starts cwd s small held)
]

abbrev pub place : Option ℕ × List ℕ → Option ℕ
place (slot, name) = slot

Trades-Finds :
    (i : ℕ) (s t : Fs) (r : Result ((Option ℕ × List ℕ) × Fs))
    → MoreRefs i s t
    → Trades i t r
    → Finds place s r
Trades-Finds i s t panic more trades = tt
Trades-Finds i s t (ok ((none, name), u)) more trades = λ k. omega (arith, more k, trades k)
Trades-Finds i s t (ok ((some j, name), u)) more trades = λ k. omega (arith, more k, trades k)

-- Unless it panics, a walk along a path ends with one reference more to the inode that it returns,
-- or, if it returns null, with all reference counts as before. The process must hold a reference to
-- the directory it is in, and every count must be able to grow by two in 32 bits, as an `int`.
pub namex-Finds :
    (me cwd : ℕ) (parent : Bool) (path name : List ℕ) (s : Fs)
    → Bounded 2 s
    → 0 < ref_at cwd s.itable
    → Finds place s (namex me cwd parent path name s)
unfolding namex
namex-Finds me cwd parent path name s small held = elim (Result-cases (first_inode cwd path s)) [
  | inl e ↦ rw (e, namex, ◌>>=◌) tt
  | inr ((i, t), e) ↦
      let more : Starts s (ok (i, t)) =
        rw e at (first_inode-Starts cwd path s (λ k. omega (arith, small k)) held) in
      let owns : Owns i t =
        (ground (arith, more i, ==_iff i i), λ k. omega (arith, more k, small k)) in
      rw (e, namex, ◌>>=◌)
        (Trades-Finds i s t (namex_from (suc (length path)) me i parent path name t) more
          (namex_from-Trades (suc (length path)) me i parent path name t owns))
]

pub namei-Finds :
    (me cwd : ℕ) (path : List ℕ) (s : Fs)
    → Bounded 2 s
    → 0 < ref_at cwd s.itable
    → Finds place s (namei me cwd path s)
unfolding namei
namei-Finds me cwd path s small held =
    namex-Finds me cwd false path (replicate dirsiz 0) s small held

pub nameiparent-Finds :
    (me cwd : ℕ) (path name : List ℕ) (s : Fs)
    → Bounded 2 s
    → 0 < ref_at cwd s.itable
    → Finds place s (nameiparent me cwd path name s)
unfolding nameiparent
nameiparent-Finds me cwd path name s small held = namex-Finds me cwd true path name s small held
