-- ===== src/Syscall/Arguments.antt =====
-- What `argptr` accepts.
use uw_cse451_operating_syst.Base.{
  lt→ltb, leb→le, ℕ, zero, suc, ◌+◌, ◌-◌, ◌^◌, ◌≤◌, ◌<◌, ◌≡◌, inl, inr, refl, sym, ap, ◌∙◌, Bool,
  true, false, ◌&&◌, some, List, [], ◌∷◌, arith, ◌==◌, ltb, leb, if◌then◌else◌, get_elem?,
  Bool-cases,
}
use uw_cse451_operating_syst.Base.Outcome.{done}
use uw_cse451_operating_syst.Base.Machine.{add64, is_negative}
use uw_cse451_operating_syst.Vspace.{Region, up, vregioncontains, vr_top, vr_bottom}
use uw_cse451_operating_syst.Syscall.{Caller, fetcharg, argint64, argptr, any_contains}

-- The bytes from `addr` on, `size` of them, lie in the region.
abbrev pub Inside : Region → (addr size : ℕ) → Type 0
Inside r addr size = (vr_bottom r ≤ addr) × (addr + size ≤ vr_top r)

bounds_inside :
    (bottom top addr size : ℕ) (empty : Bool)
    → (if empty then false else if leb bottom addr then leb (add64 addr size) top else false) ≡ true
    → addr + size < 2 ^ 64
    → (bottom ≤ addr) × (addr + size ≤ top)
bounds_inside bottom top addr size empty h l =
    let same : add64 addr size ≡ addr + size = omega arith in
    elim (Bool-cases empty) [
      | inl e ↦ cc (rw e at h)
      | inr e ↦ elim (Bool-cases (leb bottom addr)) [
        | inr b ↦ cc (rw (e, b) at h)
        | inl b ↦
            let t : leb (addr + size) top ≡ true = rw (e, b, same) at h in
            (leb→le bottom addr b, leb→le (addr + size) top t)
      ]
    ]

pub vregioncontains-Inside :
    (r : Region) (addr size : ℕ)
    → vregioncontains r addr size ≡ true
    → addr + size < 2 ^ 64
    → Inside r addr size
unfolding vregioncontains
vregioncontains-Inside r addr size h l =
    bounds_inside (vr_bottom r) (vr_top r) addr size (size == 0 && addr == vr_top r) h l

any_contains-Inside :
    (rs : List Region) (addr size : ℕ)
    → any_contains rs addr size ≡ true
    → addr + size < 2 ^ 64
    → (m : ℕ) × (r : Region) × (get_elem? rs m ≡ some r) × Inside r addr size
unfolding any_contains
any_contains-Inside [] addr size h l = cc h
any_contains-Inside (r ∷ rs) addr size h l = elim (Bool-cases (vregioncontains r addr size)) [
  | inl t ↦ (0, r, refl, vregioncontains-Inside r addr size t l)
  | inr f ↦ let (m, s, g, i) = any_contains-Inside rs addr size (rw f at h) l in (suc m, s, g, i)
]

-- A pointer that `argptr` accepts is the argument as it was passed, and the bytes that were asked for lie in
-- one region of the process, provided that they end below 2^64.
pub argptr-Inside :
    (c : Caller) (n size p : ℕ)
    → argptr c n size ≡ done (some p)
    → p + size < 2 ^ 64
    → (p ≡ c.registers n)
      × (size < 2 ^ 31)
      × ((m : ℕ) × (r : Region) × (get_elem? c.regions m ≡ some r) × Inside r p size)
unfolding argptr argint64 fetcharg
argptr-Inside c n size p h l = elim (Bool-cases (ltb n 6)) [
  | inr f ↦ cc (rw f at h)
  | inl t ↦ elim (Bool-cases (is_negative size)) [
    | inl f ↦ cc (rw (t, f) at h)
    | inr f ↦ elim (Bool-cases (any_contains c.regions (c.registers n) size)) [
      | inr g ↦ cc (rw (t, f, g) at h)
      | inl g ↦
          let same : c.registers n ≡ p = cc (rw (t, f, g) at h) in
          (
            sym same,
            ground arith,
            any_contains-Inside c.regions p size
                (ap (λ x. any_contains c.regions x size) (sym same) ∙ g) l,
          )
    ]
  ]
]

any_contains-at :
    (rs : List Region) (m : ℕ) (r : Region) (addr size : ℕ)
    → get_elem? rs m ≡ some r
    → vregioncontains r addr size ≡ true
    → any_contains rs addr size ≡ true
unfolding any_contains
any_contains-at [] m r addr size g t = cc g
any_contains-at (s ∷ rs) zero r addr size g t =
    let e : s ≡ r = cc g in
    let here : vregioncontains s addr size ≡ true = ap (λ x. vregioncontains x addr size) e ∙ t in
    rw here refl
any_contains-at (s ∷ rs) (suc m) r addr size g t = elim (Bool-cases (vregioncontains s addr size)) [
  | inl here ↦ rw here refl
  | inr f ↦ rw f (any_contains-at rs m r addr size g t)
]

-- The end of the range wraps to 0.
wrapped-vregioncontains :
    (r : Region) (addr : ℕ)
    → r.dir ≡ up
    → r.va_base ≡ 0
    → 2 ^ 63 < addr
    → addr < 2 ^ 64
    → vregioncontains r addr (2 ^ 64 - addr) ≡ true
unfolding vregioncontains
wrapped-vregioncontains r addr d b l u =
    let nonzero : (2 ^ 64 - addr) == 0 ≡ false = ground arith in
    let wraps : add64 addr (2 ^ 64 - addr) ≡ 0 = omega arith in
    let low : leb 0 addr ≡ true = ground arith in rw (d, b, nonzero, wraps, low) (ground arith)

-- For a process with a region that starts at 0 and grows upwards, as the code does, `argptr` accepts every
-- address of the kernel from KERNBASE + 1 on, with the size that reaches up to 2^64.
pub argptr-kernel :
    (c : Caller) (n m : ℕ) (r : Region)
    → n < 6
    → get_elem? c.regions m ≡ some r
    → r.dir ≡ up
    → r.va_base ≡ 0
    → 2 ^ 64 - 2 ^ 31 < c.registers n
    → c.registers n < 2 ^ 64
    → argptr c n (2 ^ 64 - c.registers n) ≡ done (some (c.registers n))
unfolding argptr argint64 fetcharg
argptr-kernel c n m r ln g d b lo hi =
    let t : ltb n 6 ≡ true = lt→ltb n 6 ln in
    let f : is_negative (2 ^ 64 - c.registers n) ≡ false = ground arith in
    let w =
      any_contains-at c.regions m r (c.registers n) (2 ^ 64 - c.registers n) g
        (wrapped-vregioncontains r (c.registers n) d b (omega arith) hi) in
    rw (t, f, w) refl
