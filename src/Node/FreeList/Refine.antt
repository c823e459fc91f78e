-- ===== src/Node/FreeList/Refine.antt =====
-- The linked free list is a queue: fusefs_addfree puts a node last, make_fusenode takes the first,
-- and a lookup takes out any.
use mathlib.Core.List.{append-nil}
use mathlib.Core.Path.{subst}
use illumos_fuse.Node.FreeList.{
  Links, FreeList, unlink, head_without, sn_rmfree, link_last, put_free,
}
use illumos_fuse.Node.FreeList.Ring.{
  NotIn, Distinct, Seg, last, last-back, last-fwd, first-back, NotIn-middle, Seg-split,
  NotIn-append, Spares, retarget, keep, Distinct-middle, last_apart,
}
use illumos_fuse.Prelude.{ℕ, ◌≡◌, refl, sym, ◌≢◌, false, List, [], ◌∷◌, ◌++◌, arith, ◌==◌}

abbrev pub IsRing : (ℕ → Links) → ℕ → List ℕ → Type 0
IsRing f head [] = head ≡ 0
IsRing f head (x ∷ xs) = (head ≡ x) × Seg f x xs x

-- The list holds the nodes `xs`, from the head on.
pub record IsFreeList (s : FreeList) (xs : List ℕ) : Type 0 where
  pub ring : IsRing s.links s.fusefreelist xs
  pub distinct : Distinct xs
  pub not_null : NotIn 0 xs
  pub off : (x : ℕ) → NotIn x xs → ((s.links x).r_freef ≡ 0) × ((s.links x).r_freeb ≡ 0)

unlink-Spares : (f : ℕ → Links) (np : ℕ) → Spares f (unlink f np) (f np).r_freeb (f np).r_freef np
unfolding unlink
unlink-Spares f np = record { fwd = λ x a b. ground arith; bwd = λ x a b. ground arith }

unlink-joins :
    (f : ℕ → Links) (np : ℕ)
    → (f np).r_freeb ≢ np
    → (f np).r_freef ≢ np
    → ((unlink f np (f np).r_freeb).r_freef ≡ (f np).r_freef)
      × ((unlink f np (f np).r_freef).r_freeb ≡ (f np).r_freeb)
unfolding unlink
unlink-joins f np a b = (ground arith, ground arith)

link_last-Spares :
    (f : ℕ → Links) (h np : ℕ) → h ≢ np → Spares f (link_last f h np) (f h).r_freeb h np
unfolding link_last
link_last-Spares f h np ne = record { fwd = λ x a b. ground arith; bwd = λ x a b. ground arith }

link_last-joins :
    (f : ℕ → Links) (h np : ℕ)
    → h ≢ np
    → (f h).r_freeb ≢ np
    → ((link_last f h np (f h).r_freeb).r_freef ≡ np)
      × ((link_last f h np np).r_freeb ≡ (f h).r_freeb)
      × ((link_last f h np np).r_freef ≡ h)
      × ((link_last f h np h).r_freeb ≡ np)
unfolding link_last
link_last-joins f h np a b = (ground arith, ground arith, ground arith, ground arith)

put-IsRing :
    (f : ℕ → Links) (h : ℕ) (xs : List ℕ) (np : ℕ)
    → Seg f h xs h
    → Distinct (h ∷ xs)
    → NotIn np (h ∷ xs)
    → Seg (link_last f h np) h (xs ++ np ∷ []) h
put-IsRing f h xs np s d n =
    let l = last-back f h xs h s in
    let ne : h ≢ np = λ e. n.0 (sym e) in
    let a : (f h).r_freeb ≢ np = ground (arith, l, last_ne h xs np n) in
    let j = link_last-joins f h np ne a in
    (Seg-split (link_last f h np) h xs np [] h).1
      (retarget (link_last-Spares f h np ne) h xs h np s (sym l) j.0 j.1 n d.0 d, (j.2, j.3))
  where
    last_ne : (h : ℕ) (xs : List ℕ) (np : ℕ) → NotIn np (h ∷ xs) → last h xs ≢ np
    last_ne h [] np n = λ e. n.0 (sym e)
    last_ne h (x ∷ xs) np n = last_ne x xs np n.1

not_last : (np h : ℕ) (xs : List ℕ) → NotIn np (h ∷ xs) → last h xs ≢ np
not_last np h [] n = λ e. n.0 (sym e)
not_last np h (x ∷ xs) n = not_last np x xs n.1

-- The first node taken out.
take_first :
    (f : ℕ → Links) (np : ℕ) (vs : List ℕ)
    → Seg f np vs np
    → Distinct (np ∷ vs)
    → IsRing (unlink f np) (head_without (record { links = f; fusefreelist = np }) np) vs
unfolding head_without
take_first f np [] s d = ground arith
take_first f np (v ∷ vs) s d =
    let l = last-back f v vs np s.2 in
    let nl = not_last np v vs d.0 in
    let j = unlink-joins f np (ground (arith, l)) (ground arith) in
    (
      ground arith,
      retarget (unlink-Spares f np) v vs np v s.2 (sym l) (ground (arith, j.0))
          (ground (arith, j.1)) d.0 (rw s.0 d.1.0) d.1,
    )

-- A later node taken out.
take_later :
    (f : ℕ → Links) (u : ℕ) (us : List ℕ) (np : ℕ) (vs : List ℕ)
    → Seg f u (us ++ np ∷ vs) u
    → Distinct (u ∷ us ++ np ∷ vs)
    → Seg (unlink f np) u (us ++ vs) u
take_later f u us np [] s d =
    let c = (Seg-split f u us np [] u).0 s in
    let m = Distinct-middle (u ∷ us) np [] d in
    let l = last-back f u us np c.0 in
    let nn : NotIn np (u ∷ us) = m.1 in
    let j =
      unlink-joins f np (ground (arith, l, not_last np u us nn)) (ground (arith, c.1.0, nn.0)) in
    rw (append-nil us) (
      retarget (unlink-Spares f np) u us np u c.0 (sym l) (ground (arith, j.0, c.1.0))
        (ground (arith, j.1, c.1.0)) nn (rw c.1.0 m.3.0) m.3)
take_later f u us np (v ∷ vs) s d =
    let c = (Seg-split f u us np (v ∷ vs) u).0 s in
    let m = Distinct-middle (u ∷ us) np (v ∷ vs) d in
    let l = last-back f u us np c.0 in
    let nn : NotIn np (u ∷ us) = m.1 in
    let j =
      unlink-joins f np (ground (arith, l, not_last np u us nn)) (ground (arith, c.1.0, m.2.0)) in
    let k = unlink-Spares f np in
    let mv = Distinct-middle (u ∷ us) v vs m.0 in
    let left =
      retarget k u us np v c.0 (sym l) (ground (arith, j.0, c.1.0)) (ground (arith, j.1, c.1.0)) nn
        (rw c.1.0 mv.1.1) mv.3 in
    let right =
      keep k v vs u c.1.2 m.2 (subst (λ t. NotIn t (v ∷ vs)) (sym l) (last_apart u us (v ∷ vs) m.0))
        (rw c.1.0 mv.2) (rw c.1.0 (λ e. mv.1.0 (sym e))) (λ e. nn.0 (sym e)) in
    (Seg-split (unlink f np) u us v vs u).1 (left, right)

neighbours :
    (f : ℕ → Links) (head : ℕ) (us : List ℕ) (np : ℕ) (vs : List ℕ)
    → IsRing f head (us ++ np ∷ vs)
    → ((f (f np).r_freeb).r_freef ≡ np) × ((f (f np).r_freef).r_freeb ≡ np)
neighbours f head [] np vs r =
    (rw (last-back f np vs np r.1) (last-fwd f np vs np r.1), first-back f np vs np r.1)
neighbours f head (u ∷ us) np vs r =
    let c = (Seg-split f u us np vs u).0 r.1 in
    (rw (last-back f u us np c.0) (last-fwd f u us np c.0), first-back f np vs u c.1)

rest-IsRing :
    (f : ℕ → Links) (head : ℕ) (us : List ℕ) (np : ℕ) (vs : List ℕ)
    → IsRing f head (us ++ np ∷ vs)
    → Distinct (us ++ np ∷ vs)
    → IsRing (unlink f np) (head_without (record { links = f; fusefreelist = head }) np) (us ++ vs)
unfolding head_without
rest-IsRing f head [] np vs r d = rw (r.0) (take_first f np vs r.1 d)
rest-IsRing f head (u ∷ us) np vs r d =
    let m = Distinct-middle (u ∷ us) np vs d in
    (ground (arith, r.0, m.1.0), take_later f u us np vs r.1 d)

unlink-off :
    (f : ℕ → Links) (np : ℕ) (x : ℕ)
    → (x ≢ np → ((f x).r_freef ≡ 0) × ((f x).r_freeb ≡ 0))
    → np ≢ 0
    → (f (f np).r_freeb).r_freef ≡ np
    → (f (f np).r_freef).r_freeb ≡ np
    → ((unlink f np x).r_freef ≡ 0) × ((unlink f np x).r_freeb ≡ 0)
unfolding unlink
unlink-off f np x h z a b = (ground arith, ground arith)

-- sn_rmfree takes the node out of the queue, wherever it stands, and leaves the order of the rest.
pub rmfree-IsFreeList :
    (s : FreeList) (us : List ℕ) (np : ℕ) (vs : List ℕ)
    → IsFreeList s (us ++ np ∷ vs)
    → IsFreeList (sn_rmfree s np) (us ++ vs)
unfolding sn_rmfree
rmfree-IsFreeList s us np vs q =
    let nb = neighbours s.links s.fusefreelist us np vs q.ring in
    let z = (NotIn-append 0 us (np ∷ vs)).0 q.not_null in
    record {
      ring = rest-IsRing s.links s.fusefreelist us np vs q.ring q.distinct;
      distinct = (Distinct-middle us np vs q.distinct).0;
      not_null = (NotIn-append 0 us vs).1 (z.0, z.1.1);
      off = λ x n.
          unlink-off s.links np x (λ ne. q.off x (NotIn-middle x us np vs ne n))
            (λ e. z.1.0 (sym e)) nb.0 nb.1;
    }

Distinct-snoc : (xs : List ℕ) (np : ℕ) → Distinct xs → NotIn np xs → Distinct (xs ++ np ∷ [])
Distinct-snoc [] np d n = (tt, tt)
Distinct-snoc (x ∷ xs) np d n =
    ((NotIn-append x xs (np ∷ [])).1 (d.0, ((λ e. n.0 (sym e)), tt)), Distinct-snoc xs np d.1 n.1)

link_last-off :
    (f : ℕ → Links) (h np x : ℕ)
    → ((f x).r_freef ≡ 0) × ((f x).r_freeb ≡ 0)
    → h ≢ 0
    → x ≢ h
    → x ≢ np
    → (f (f h).r_freeb).r_freef ≡ h
    → ((link_last f h np x).r_freef ≡ 0) × ((link_last f h np x).r_freeb ≡ 0)
unfolding link_last
link_last-off f h np x a z b c l = (ground arith, ground arith)

-- The end of fusefs_addfree puts a node that is not on the list behind the others.
pub put-IsFreeList :
    (s : FreeList) (xs : List ℕ) (np : ℕ)
    → IsFreeList s xs
    → NotIn np xs
    → np ≢ 0
    → IsFreeList (put_free s np) (xs ++ np ∷ [])
unfolding put_free
put-IsFreeList s [] np q n z =
    rw (q.ring, put_free)
      (record {
        ring = ground arith;
        distinct = (tt, tt);
        not_null = ((λ e. z (sym e)), tt);
        off = λ x h. ground (arith, q.off x tt);
      })
put-IsFreeList s (x ∷ xs) np q n z =
    let full : (s.fusefreelist == 0) ≡ false = ground (arith, q.ring.0, q.not_null.0) in
    rw (full, put_free, q.ring.0)
      (record {
        ring = (refl, put-IsRing s.links x xs np q.ring.1 q.distinct n);
        distinct = Distinct-snoc (x ∷ xs) np q.distinct n;
        not_null = (NotIn-append 0 (x ∷ xs) (np ∷ [])).1 (q.not_null, ((λ e. z (sym e)), tt));
        off = λ y h.
            let a = (NotIn-append y (x ∷ xs) (np ∷ [])).0 h in
            let l : (s.links (s.links x).r_freeb).r_freef ≡ x =
              rw (last-back s.links x xs x q.ring.1) (last-fwd s.links x xs x q.ring.1) in
            link_last-off s.links x np y (q.off y a.0) (λ e. q.not_null.0 (sym e)) a.0.0 a.1.0 l;
      })
