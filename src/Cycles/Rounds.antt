-- ===== src/Cycles/Rounds.antt =====
-- One round of the search, in every case.
use mathlib.Core.List.{Memᴰ}
use mathlib.Core.List.Memᴰ
use mathlib.Core.Path.{subst}
use nodus.Prelude.{
  ℕ, suc, ◌≡◌, refl, sym, ◌⊎◌, inl, inr, Bool, true, false, Option, none, some, List, [], ◌∷◌,
  String, get_elem?, arith, if◌then◌else◌,
}
use nodus.Prelude.Dict.{lookup}
use nodus.Cycles.{
  Graph, Colour, Search, white, grey, black, going, colour_of, dependencies, is_some, enter, leave,
  look_at, visit_top, visit_on, visit, with_top, path_from,
}
use nodus.Cycles.Walks.{Edge, Leads, Leads-concat, Leads-path_from, IsCycle}
use nodus.Cycles.Inspect.{names, Trail, Inv, Leads-names}
use nodus.Cycles.Keeps.{Seen, KeptVisit, pass-Inv, enter-Inv, leave-Inv, path-stack, path-leave}

module _ (adj : Graph) (s : Search) (done : List String) (inv : Inv adj s done) where
  closing :
      (node dep : String) (i : ℕ) (rest : List (String × ℕ))
      → s.stack ≡ (node, i) ∷ rest
      → Edge adj node dep
      → colour_of s.colour dep ≡ grey
      → IsCycle adj (path_from dep s.path)
  closing node dep i rest stack edge on_path =
      Leads-path_from adj dep s.path (inv.grey_on_path dep on_path) (
        subst (Leads adj dep) (sym (path-stack adj s done node i rest stack inv))
          (Leads-concat adj node dep (names rest) (Leads-names adj node rest t.0 t.1) edge))
    where
      t : Trail adj ((node, i) ∷ rest)
      t = subst (Trail adj) stack inv.trail

  look_at-KeptVisit :
      (node dep : String) (i : ℕ) (rest : List (String × ℕ))
      → s.stack ≡ (node, i) ∷ rest
      → get_elem? (dependencies adj node) i ≡ some dep
      → (c : Colour) → colour_of s.colour dep ≡ c
      → KeptVisit adj s done (look_at adj (with_top s ((node, suc i) ∷ rest)) dep c)
  look_at-KeptVisit node dep i rest stack at_i grey h = closing node dep i rest stack (i, at_i) h
  look_at-KeptVisit node dep i rest stack at_i black h = (
    done,
    pass-Inv adj s done node dep i rest stack at_i (λ key. inv.black_done dep h) inv,
    λ r k. k,
  )
  look_at-KeptVisit node dep i rest stack at_i white h = by_key (is_some (lookup dep adj)) refl
    where
      next : Search
      next = with_top s ((node, suc i) ∷ rest)

      by_key :
          (b : Bool)
          → is_some (lookup dep adj) ≡ b
          → KeptVisit adj s done (going (if b then enter next dep else next))
      by_key true key = (
        done,
        enter-Inv adj s done node dep i rest stack at_i inv,
        λ r k. elim k [ inl m ↦ inl m | inr m ↦ inr (Memᴰ.append_left (dep ∷ []) m) ],
      )
      by_key false key =
          (done, pass-Inv adj s done node dep i rest stack at_i (λ k. ground arith) inv, λ r k. k)

  leave-KeptVisit :
      (node : String) (i : ℕ) (rest : List (String × ℕ))
      → s.stack ≡ (node, i) ∷ rest
      → get_elem? (dependencies adj node) i ≡ none
      → KeptVisit adj s done (going (leave s node rest))
  leave-KeptVisit node i rest stack at_end =
      (node ∷ done, leave-Inv adj s done node i rest stack at_end inv, λ r k. kept r k)
    where
      on_path :
          (r : String)
          → Memᴰ r (names rest) ⊎ Memᴰ r (node ∷ [])
          → Memᴰ r (node ∷ done) ⊎ Memᴰ r (names rest)
      on_path r (inl m) = inr m
      on_path r (inr m) = inl (Memᴰ.head (Memᴰ.eq_of_singleton m))

      kept : (r : String) → Seen adj s done r → Seen adj (leave s node rest) (node ∷ done) r
      kept r (inl m) = inl (Memᴰ.tail m)
      kept r (inr m) =
          subst (λ p. Memᴰ r (node ∷ done) ⊎ Memᴰ r p)
            (sym (path-leave adj s done node i rest stack inv))
            (on_path r (
              Memᴰ.append_cases (names rest)
                (subst (Memᴰ r) (path-stack adj s done node i rest stack inv) m)))

  visit_top-KeptVisit :
      (node : String) (i : ℕ) (rest : List (String × ℕ)) (o : Option String)
      → s.stack ≡ (node, i) ∷ rest
      → get_elem? (dependencies adj node) i ≡ o
      → KeptVisit adj s done (visit_top adj s node i rest o)
  visit_top-KeptVisit node i rest (some dep) stack at_i =
      look_at-KeptVisit node dep i rest stack at_i (colour_of s.colour dep) refl
  visit_top-KeptVisit node i rest none stack at_end = leave-KeptVisit node i rest stack at_end

  visit_on-KeptVisit :
      (stack : List (String × ℕ)) → s.stack ≡ stack → KeptVisit adj s done (visit_on adj s stack)
  visit_on-KeptVisit [] e = e
  visit_on-KeptVisit ((node, i) ∷ rest) e =
      visit_top-KeptVisit node i rest (get_elem? (dependencies adj node) i) e refl

  pub visit-KeptVisit : KeptVisit adj s done (visit adj s)
  unfolding visit
  visit-KeptVisit = visit_on-KeptVisit s.stack refl
