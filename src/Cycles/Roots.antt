-- ===== src/Cycles/Roots.antt =====
-- The search from every root ends, with a cycle or with every node finished.
use mathlib.Core.List.{Memᴰ}
use mathlib.Core.List.Memᴰ
use mathlib.Core.Path.{subst}
use text.Mathlib.Text.{◌==◌}
use text.Mathlib.TextEquality.{eq_iff}
use text.Mathlib.TextPositions.{eq_refl}
use nodus.Prelude.{
  ℕ, zero, suc, ◌<◌, ◌≡◌, refl, sym, ap, ◌∙◌, inl, inr, Bool, true, false, Option, none, some, List,
  [], ◌∷◌, ◌++◌, String, arith, Option-cases, if◌then◌else◌,
}
use nodus.Prelude.Dict.{lookup}
use nodus.Cycles.{
  Graph, Colour, Search, Visit, Progress, white, grey, black, ended, going, closes, explored,
  closed, colour_of, is_some, is_white, enter, visit, proceed, search, and_then, from_roots, rounds,
}
use nodus.Cycles.Walks.{IsCycle}
use nodus.Cycles.Inspect.{Inv, Trail, Looked, names}
use nodus.Cycles.Keeps.{Seen, KeptVisit, grey-enter, black-enter}
use nodus.Cycles.Rounds.{visit-KeptVisit}
use nodus.Cycles.Budget.{weight, Cheaper, visit-Cheaper, weight-root}

abbrev pub HasKey : String → Graph → Type 0
HasKey r g = is_some (lookup r g) ≡ true

module _ (adj : Graph) where
  -- The search returned: a cycle, or with an empty stack and nothing lost.
  abbrev Searched : Search → List String → Option Progress → Type 0
  Searched s done none = ⊥
  Searched s done (some (closed c)) = IsCycle adj c
  Searched s done (some (explored t)) =
      (done' : List String) × Inv adj t done'
      × (t.stack ≡ [])
      × ((r : String) → Seen adj s done r → Seen adj t done' r)

  search-Searched :
      (fuel : ℕ) (s : Search) (done : List String)
      → Inv adj s done
      → weight adj s < fuel
      → Searched s done (search adj fuel s)
  unfolding search
  search-Searched zero s done inv lt = ground arith
  search-Searched (suc fuel) s done inv lt =
      by_visit (visit adj s) (visit-KeptVisit adj s done inv) (visit-Cheaper adj s)
        (search-Searched fuel)
    where
      by_visit :
          (v : Visit)
          → KeptVisit adj s done v
          → Cheaper adj (weight adj s) v
          → ((t : Search) (done' : List String)
              → Inv adj t done'
              → weight adj t < fuel
              → Searched t done' (search adj fuel t))
          → Searched s done (proceed (search adj fuel) s v)
      by_visit ended empty c rest = (done, inv, empty, λ r k. k)
      by_visit (closes c) cycle _ rest = cycle
      by_visit (going t) (done', inv', kept) cheaper rest =
          carry (search adj fuel t) (rest t done' inv' (omega arith))
        where
          carry : (o : Option Progress) → Searched t done' o → Searched s done o
          carry none w = w
          carry (some (closed c)) w = w
          carry (some (explored u)) (done'', inv'', empty, kept') =
              (done'', inv'', empty, λ r k. kept' r (kept r k))

  -- With an empty stack, what was seen is finished.
  Seen-done :
      (s : Search) (done : List String) (r : String)
      → Inv adj s done
      → s.stack ≡ []
      → Seen adj s done r
      → Memᴰ r done
  Seen-done s done r inv empty (inl m) = m
  Seen-done s done r inv empty (inr m) =
      absurd (Memᴰ.not-nil (subst (Memᴰ r) (inv.path_names ∙ ap names empty) m))

  -- A node that is not white has been seen.
  coloured-Seen :
      (s : Search) (done : List String) (r : String) (c : Colour)
      → Inv adj s done
      → is_white c ≡ false
      → colour_of s.colour r ≡ c
      → Seen adj s done r
  coloured-Seen s done r white inv coloured e = ground arith
  coloured-Seen s done r grey inv coloured e = inr (inv.grey_on_path r e)
  coloured-Seen s done r black inv coloured e = inl (inv.black_done r e)

  root-Inv :
      (s : Search) (done : List String) (root : String)
      → Inv adj s done
      → s.stack ≡ []
      → Inv adj (enter s root) done
  root-Inv s done root inv empty = record {
    grey_on_path = λ d h. grey-enter adj s done root d inv h;
    black_done = λ d h. black-enter adj s done root d inv h;
    path_names = ap (λ p. p ++ root ∷ []) inv.path_names;
    trail = subst (λ x. Trail adj ((root, 0) ∷ x)) (sym empty) (tt, tt);
    looked = (λ d k lt at key. ground arith, subst (Looked adj done (some root)) (sym empty) tt);
    ordered = inv.ordered;
  }

  -- Every root was searched: a cycle, or everything is finished.
  abbrev pub Rooted : List String → Graph → Option Progress → Type 0
  Rooted done more none = ⊥
  Rooted done more (some (closed c)) = IsCycle adj c
  Rooted done more (some (explored t)) =
      (done' : List String) × Inv adj t done'
      × (t.stack ≡ [])
      × ((r : String) → Memᴰ r done → Memᴰ r done')
      × ((r : String) → HasKey r more → Memᴰ r done')

  -- One root is finished, then the others.
  Rooted-cons :
      (done done' : List String) (root : String) (ds : List String) (more : Graph)
      (o : Option Progress)
      → ((r : String) → Memᴰ r done → Memᴰ r done')
      → Memᴰ root done'
      → Rooted done' more o
      → Rooted done ((root, ds) ∷ more) o
  unfolding lookup
  Rooted-cons done done' root ds more none kept m w = w
  Rooted-cons done done' root ds more (some (closed c)) kept m w = w
  Rooted-cons done done' root ds more (some (explored t)) kept m (end, inv, empty, later, keys) =
      (end, inv, empty, λ r k. later r (kept r k), λ r key. by_test r (root == r) refl key)
    where
      by_test :
          (r : String) (b : Bool)
          → (root == r) ≡ b
          → is_some (if b then some ds else lookup r more) ≡ true
          → Memᴰ r end
      by_test r true e key = later r (subst (λ x. Memᴰ x done') ((eq_iff root r).0 e) m)
      by_test r false e key = keys r key

  HasKey-cons :
      (r root : String) (ds : List String) (more : Graph)
      → HasKey r more
      → HasKey r ((root, ds) ∷ more)
  unfolding lookup
  HasKey-cons r root ds more h = by_test (root == r)
    where
      by_test : (b : Bool) → is_some (if b then some ds else lookup r more) ≡ true
      by_test true = refl
      by_test false = h

  HasKey-head : (root : String) (ds : List String) (more : Graph) → HasKey root ((root, ds) ∷ more)
  unfolding lookup
  HasKey-head root ds more = simp eq_refl

  is_white-white : (c : Colour) → is_white c ≡ true → c ≡ white
  is_white-white white h = refl
  is_white-white grey h = ground arith
  is_white-white black h = ground arith

  root-weight :
      (s : Search) (root : String)
      → s.stack ≡ []
      → colour_of s.colour root ≡ white
      → HasKey root adj
      → weight adj (enter s root) < rounds adj
  root-weight s root empty w key = elim (Option-cases (lookup root adj)) [
    | inl e ↦ ground arith
    | inr found ↦ weight-root adj s root found.0 empty w found.1
  ]

  after_root :
      (s : Search) (done : List String) (root : String) (ds : List String) (more : Graph)
      (o : Option Progress) (k : Search → Option Progress)
      → Searched (enter s root) done o
      → ((t : Search) (done' : List String)
          → Inv adj t done'
          → t.stack ≡ []
          → Rooted done' more (k t))
      → Rooted done ((root, ds) ∷ more) (and_then o k)
  after_root s done root ds more none k w rest = w
  after_root s done root ds more (some (closed c)) k w rest = w
  after_root s done root ds more (some (explored t)) k (done', inv', empty', kept) rest =
      Rooted-cons done done' root ds more (k t)
        (λ r m. Seen-done t done' r inv' empty' (kept r (inl m)))
        (Seen-done t done' root inv' empty'
          (kept root (inr (Memᴰ.append_right s.path (Memᴰ.head refl)))))
        (rest t done' inv' empty')

  pub from_roots-Rooted :
      (more : Graph) (s : Search) (done : List String)
      → ((r : String) → HasKey r more → HasKey r adj)
      → Inv adj s done
      → s.stack ≡ []
      → Rooted done more (from_roots adj (rounds adj) more s)
  unfolding from_roots lookup
  from_roots-Rooted [] s done keys inv empty = (done, inv, empty, λ r m. m, λ r h. ground arith)
  from_roots-Rooted ((root, ds) ∷ more) s done keys inv empty =
      by_white (is_white (colour_of s.colour root)) refl (from_roots-Rooted more)
    where
      by_white :
          (b : Bool)
          → is_white (colour_of s.colour root) ≡ b
          → ((t : Search) (done' : List String)
              → ((r : String) → HasKey r more → HasKey r adj)
              → Inv adj t done'
              → t.stack ≡ []
              → Rooted done' more (from_roots adj (rounds adj) more t))
          → Rooted done ((root, ds) ∷ more) (
              if b
              then and_then
                  (search adj (rounds adj) (enter s root))
                  (from_roots adj (rounds adj) more)
              else from_roots adj (rounds adj) more s)
      by_white true w rest =
          after_root s done root ds more (search adj (rounds adj) (enter s root))
            (from_roots adj (rounds adj) more)
            (search-Searched (rounds adj) (enter s root) done (root-Inv s done root inv empty) (
              root-weight s root empty (is_white-white _ w) (keys root (HasKey-head root ds more))))
            (λ t done' inv' empty'.
              rest t done' (λ r h. keys r (HasKey-cons r root ds more h)) inv' empty')
      by_white false w rest =
          Rooted-cons done done root ds more _ (λ r m. m)
            (Seen-done s done root inv empty
              (coloured-Seen s done root (colour_of s.colour root) inv w refl))
            (rest s done (λ r h. keys r (HasKey-cons r root ds more h)) inv empty)
