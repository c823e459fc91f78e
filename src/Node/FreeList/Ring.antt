-- ===== src/Node/FreeList/Ring.antt =====
-- Segments of the list, and what a change of two links does to them.
use illumos_fuse.Node.FreeList.{Links}
use illumos_fuse.Prelude.{ℕ, ◌≡◌, sym, ◌≢◌, ◌↔◌, List, [], ◌∷◌, ◌++◌, arith}

abbrev pub NotIn : ℕ → List ℕ → Type 0
NotIn x [] = Unit {0}
NotIn x (y ∷ ys) = (x ≢ y) × NotIn x ys

abbrev pub Distinct : List ℕ → Type 0
Distinct [] = Unit {0}
Distinct (x ∷ xs) = NotIn x xs × Distinct xs

-- From `x` the links lead through `ys` to `z`, and back.
abbrev pub Seg : (ℕ → Links) → ℕ → List ℕ → ℕ → Type 0
Seg f x [] z = ((f x).r_freef ≡ z) × ((f z).r_freeb ≡ x)
Seg f x (y ∷ ys) z = ((f x).r_freef ≡ y) × ((f y).r_freeb ≡ x) × Seg f y ys z

abbrev pub last : ℕ → List ℕ → ℕ
last x [] = x
last x (y ∷ ys) = last y ys

pub last-back :
    (f : ℕ → Links) (x : ℕ) (ys : List ℕ) (z : ℕ) → Seg f x ys z → (f z).r_freeb ≡ last x ys
last-back f x [] z s = s.1
last-back f x (y ∷ ys) z s = last-back f y ys z s.2

pub ne_last : (x y : ℕ) (ys : List ℕ) → NotIn x (y ∷ ys) → x ≢ last y ys
ne_last x y [] h = h.0
ne_last x y (z ∷ zs) h = ne_last x z zs h.1

pub Seg-split :
    (f : ℕ → Links) (x : ℕ) (us : List ℕ) (y : ℕ) (vs : List ℕ) (z : ℕ)
    → Seg f x (us ++ y ∷ vs) z ↔ (Seg f x us y × Seg f y vs z)
Seg-split f x [] y vs z = (λ s. ((s.0, s.1), s.2), λ s. (s.0.0, s.0.1, s.1))
Seg-split f x (a ∷ us) y vs z =
    let ih = Seg-split f a us y vs z in
    (λ s. ((s.0, s.1, (ih.0 s.2).0), (ih.0 s.2).1), λ s. (s.0.0, s.0.1, ih.1 (s.0.2, s.1)))

pub NotIn-append : (x : ℕ) (us vs : List ℕ) → NotIn x (us ++ vs) ↔ (NotIn x us × NotIn x vs)
NotIn-append x [] vs = (λ h. (tt, h), λ h. h.1)
NotIn-append x (a ∷ us) vs =
    let ih = NotIn-append x us vs in
    (λ h. ((h.0, (ih.0 h.1).0), (ih.0 h.1).1), λ h. (h.0.0, ih.1 (h.0.1, h.1)))

-- The links that a change of one forward and one backward link leaves.
pub record Spares (f g : ℕ → Links) (p n np : ℕ) : Type 0 where
  pub fwd : (x : ℕ) → x ≢ p → x ≢ np → (g x).r_freef ≡ (f x).r_freef
  pub bwd : (x : ℕ) → x ≢ n → x ≢ np → (g x).r_freeb ≡ (f x).r_freeb

module _ {f g : ℕ → Links} {p n np : ℕ} (k : Spares f g p n np) where
  -- A segment up to `p` is led to another end.
  pub retarget :
      (h : ℕ) (us : List ℕ) (z q : ℕ)
      → Seg f h us z
      → last h us ≡ p
      → (g p).r_freef ≡ q
      → (g q).r_freeb ≡ p
      → NotIn np (h ∷ us)
      → NotIn n us
      → Distinct (h ∷ us)
      → Seg g h us q
  retarget h [] z q s l gp gq a b d = (ground arith, ground arith)
  retarget h (y ∷ ys) z q s l gp gq a b d = (
    ground (arith, k.fwd h, ne_last h y ys d.0),
    ground (arith, k.bwd y),
    retarget y ys z q s.2 l gp gq a.1 b.1 d.1,
  )

  -- A segment that the change does not meet stays.
  pub keep :
      (h : ℕ) (us : List ℕ) (z : ℕ)
      → Seg f h us z
      → NotIn np (h ∷ us)
      → NotIn p (h ∷ us)
      → NotIn n us
      → z ≢ n
      → z ≢ np
      → Seg g h us z
  keep h [] z s a b c d e = (ground (arith, k.fwd h), ground (arith, k.bwd z))
  keep h (y ∷ ys) z s a b c d e =
      (ground (arith, k.fwd h), ground (arith, k.bwd y), keep y ys z s.2 a.1 b.1 c.1 d e)

pub Distinct-middle :
    (us : List ℕ) (x : ℕ) (vs : List ℕ)
    → Distinct (us ++ x ∷ vs)
    → Distinct (us ++ vs) × NotIn x us × NotIn x vs × Distinct us
Distinct-middle [] x vs d = (d.1, tt, d.0, tt)
Distinct-middle (u ∷ us) x vs d =
    let ih = Distinct-middle us x vs d.1 in
    let n = (NotIn-append u us (x ∷ vs)).0 d.0 in
    (((NotIn-append u us vs).1 (n.0, n.1.1), ih.0), ((λ e. n.1.0 (sym e)), ih.1), ih.2, (n.0, ih.3))

pub last_apart : (u : ℕ) (us vs : List ℕ) → Distinct ((u ∷ us) ++ vs) → NotIn (last u us) vs
last_apart u [] vs d = d.0
last_apart u (x ∷ us) vs d = last_apart x us vs d.1

pub last-fwd :
    (f : ℕ → Links) (x : ℕ) (ys : List ℕ) (z : ℕ) → Seg f x ys z → (f (last x ys)).r_freef ≡ z
last-fwd f x [] z s = s.0
last-fwd f x (y ∷ ys) z s = last-fwd f y ys z s.2

pub first-back :
    (f : ℕ → Links) (x : ℕ) (ys : List ℕ) (z : ℕ) → Seg f x ys z → (f (f x).r_freef).r_freeb ≡ x
first-back f x [] z s = rw s.0 s.1
first-back f x (y ∷ ys) z s = rw s.0 s.1

pub NotIn-middle :
    (x : ℕ) (us : List ℕ) (y : ℕ) (vs : List ℕ)
    → x ≢ y
    → NotIn x (us ++ vs)
    → NotIn x (us ++ y ∷ vs)
NotIn-middle x us y vs ne h =
    let (a, b) = (NotIn-append x us vs).0 h in (NotIn-append x us (y ∷ vs)).1 (a, (ne, b))
