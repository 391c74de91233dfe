-- ===== src/Icache/Search.antt =====
-- What the loop of `iget` finds.
use uw_cse451_operating_syst.Base.{
  ℕ, zero, suc, ◌+◌, ◌^◌, ◌≤◌, ◌<◌, ◌≡◌, inl, inr, sym, ap, ◌∙◌, true, false, Option, none, some,
  arith, ◌==◌, Bool-cases, ℕ-cases,
}
use uw_cse451_operating_syst.Icache.{Icache, Inode, is_cached, scan, remember}

pub is_cached-true :
    (ip : Inode) (dev inum : ℕ)
    → is_cached ip dev inum ≡ true
    → (0 < ip.ref) × (ip.ref < 2 ^ 31) × (ip.dev ≡ dev) × (ip.inum ≡ inum)
is_cached-true ip dev inum h = ground arith

pub true-is_cached :
    (ip : Inode) (dev inum : ℕ)
    → 0 < ip.ref
    → ip.ref < 2 ^ 31
    → ip.dev ≡ dev
    → ip.inum ≡ inum
    → is_cached ip dev inum ≡ true
true-is_cached ip dev inum h1 h2 h3 h4 = ground arith

pub search-found :
    (c : Icache) (dev inum count i : ℕ) (empty : Option ℕ) (k : ℕ)
    → scan c dev inum count i empty ≡ inl k
    → (i ≤ k) × (k < i + count) × (is_cached (c k) dev inum ≡ true)
unfolding scan
search-found c dev inum zero i empty k h = cc
search-found c dev inum (suc count) i empty k h = elim (Bool-cases (is_cached (c i) dev inum)) [
  | inl e ↦ let ik : i ≡ k = cc (rw e at h) in (omega arith, omega arith, rw⁻¹ ik e)
  | inr e ↦
      let (a, b, g) =
        search-found c dev inum count (i + 1) (remember empty i (c i).ref) k (rw e at h) in
      (omega arith, omega arith, g)
]

pub search-absent :
    (c : Icache) (dev inum count i : ℕ) (empty o : Option ℕ)
    → scan c dev inum count i empty ≡ inr o
    → (k : ℕ) → i ≤ k
    → k < i + count
    → is_cached (c k) dev inum ≡ false
unfolding scan
search-absent c dev inum zero i empty o h k hi hk = absurd (omega arith)
search-absent c dev inum (suc count) i empty o h k hi hk =
    elim (Bool-cases (is_cached (c i) dev inum)) [
      | inl e ↦ cc (rw e at h)
      | inr e ↦ elim (ℕ-cases i k) [
        | inl ik ↦ rw⁻¹ ik e
        | inr ne ↦
            search-absent c dev inum count (i + 1) (remember empty i (c i).ref) o (rw e at h) k
              (ground arith) (omega arith)
      ]
    ]

remember-some :
    (c : Icache) (empty : Option ℕ) (i : ℕ)
    → ((j : ℕ) → empty ≡ some j → (j < i) × ((c j).ref ≡ 0))
    → (j : ℕ) → remember empty i (c i).ref ≡ some j
    → (j < i + 1) × ((c j).ref ≡ 0)
remember-some c (some k) i he j h = let (a, b) = he j h in (omega arith, b)
remember-some c none i he j h = elim (ℕ-cases (c i).ref 0) [
  | inl z ↦
      let t : (c i).ref == 0 ≡ true = ground arith in
      let ij : i ≡ j = cc (rw t at h) in (omega arith, sym (ap (λ k. (c k).ref) ij) ∙ z)
  | inr ne ↦ cc (rw ne at h)
]

-- The slot that is remembered has no reference.
pub search-empty :
    (c : Icache) (dev inum count i : ℕ) (empty : Option ℕ) (k : ℕ)
    → ((j : ℕ) → empty ≡ some j → (j < i) × ((c j).ref ≡ 0))
    → scan c dev inum count i empty ≡ inr (some k)
    → (k < i + count) × ((c k).ref ≡ 0)
unfolding scan
search-empty c dev inum zero i empty k he h = let (a, b) = he k (cc h) in (omega arith, b)
search-empty c dev inum (suc count) i empty k he h = elim (Bool-cases (is_cached (c i) dev inum)) [
  | inl e ↦ cc (rw e at h)
  | inr e ↦
      let (a, b) =
        search-empty c dev inum count (i + 1) (remember empty i (c i).ref) k
          (remember-some c empty i he) (rw e at h) in
      (omega arith, b)
]
