-- ===== src/Cycles/Keeps.antt =====
-- A round of the search keeps its invariant, or returns a cycle.
use mathlib.Core.List.{Memᴰ}
use mathlib.Core.List.Memᴰ
use mathlib.Core.Path.{subst}
use text.Mathlib.Text.{◌==◌}
use text.Mathlib.TextEquality.{eq_iff}
use nodus.Prelude.{
  ℕ, suc, ◌≡◌, refl, sym, ap, ◌∙◌, ◌⊎◌, inl, inr, Bool, true, false, none, some, List, [], ◌∷◌,
  ◌++◌, String, get_elem?, arith, if◌then◌else◌,
}
use nodus.Prelude.Dict.{lookup, insert}
use nodus.Cycles.{
  Graph, Search, Visit, grey, black, ended, going, closes, colour_of, dependencies, is_some,
  drop_last, enter, leave, with_top,
}
use nodus.Cycles.Walks.{IsCycle}
use nodus.Cycles.Colours.{
  colour_of-insert, colour_of-other, drop_last-concat, mem-before, get_elem?-before,
}
use nodus.Cycles.Inspect.{names, Trail, Looked, Inv, Looked-finish, Before-next}

module _ (adj : Graph) where
  -- reached by the search, and finished or on its path
  abbrev pub Seen : Search → List String → String → Type 0
  Seen s done r = Memᴰ r done ⊎ Memᴰ r s.path

  -- Nothing that was seen before is lost.
  abbrev pub KeptVisit : Search → List String → Visit → Type 0
  KeptVisit s done ended = s.stack ≡ []
  KeptVisit s done (closes c) = IsCycle adj c
  KeptVisit s done (going t) =
      (done' : List String) × Inv adj t done' × ((r : String) → Seen s done r → Seen t done' r)

  pub grey-enter :
      (s : Search) (done : List String) (node d : String)
      → Inv adj s done
      → colour_of (insert node grey s.colour) d ≡ grey
      → Memᴰ d (s.path ++ node ∷ [])
  grey-enter s done node d inv h =
      by_test (node == d) refl (sym (colour_of-insert node d grey s.colour) ∙ h)
    where
      by_test :
          (b : Bool)
          → (node == d) ≡ b
          → (if b then grey else colour_of s.colour d) ≡ grey
          → Memᴰ d (s.path ++ node ∷ [])
      by_test true e h = Memᴰ.append_right s.path (Memᴰ.head (sym ((eq_iff node d).0 e)))
      by_test false e h = Memᴰ.append_left (node ∷ []) (inv.grey_on_path d h)

  pub black-enter :
      (s : Search) (done : List String) (node d : String)
      → Inv adj s done
      → colour_of (insert node grey s.colour) d ≡ black
      → Memᴰ d done
  black-enter s done node d inv h =
      inv.black_done d (colour_of-other node d grey black s.colour (λ e. ground arith) h).1

  pub path-stack :
      (s : Search) (done : List String) (node : String) (i : ℕ) (rest : List (String × ℕ))
      → s.stack ≡ (node, i) ∷ rest
      → Inv adj s done
      → s.path ≡ names rest ++ node ∷ []
  path-stack s done node i rest stack inv = inv.path_names ∙ ap names stack

  pub path-leave :
      (s : Search) (done : List String) (node : String) (i : ℕ) (rest : List (String × ℕ))
      → s.stack ≡ (node, i) ∷ rest
      → Inv adj s done
      → drop_last s.path ≡ names rest
  path-leave s done node i rest stack inv =
      ap drop_last (path-stack s done node i rest stack inv) ∙ drop_last-concat (names rest) node

  grey-leave :
      (s : Search) (done : List String) (node d : String) (i : ℕ) (rest : List (String × ℕ))
      → s.stack ≡ (node, i) ∷ rest
      → Inv adj s done
      → colour_of (insert node black s.colour) d ≡ grey
      → Memᴰ d (drop_last s.path)
  grey-leave s done node d i rest stack inv h =
      subst (Memᴰ d) (sym (path-leave s done node i rest stack inv)) (
        mem-before d node (names rest)
          (subst (Memᴰ d) (path-stack s done node i rest stack inv) (inv.grey_on_path d other.1))
          other.0)
    where
      other : ((node == d) ≡ false) × (colour_of s.colour d ≡ grey)
      other = colour_of-other node d black grey s.colour (λ e. ground arith) h

  black-leave :
      (s : Search) (done : List String) (node d : String)
      → Inv adj s done
      → colour_of (insert node black s.colour) d ≡ black
      → Memᴰ d (node ∷ done)
  black-leave s done node d inv h =
      by_test (node == d) refl (sym (colour_of-insert node d black s.colour) ∙ h)
    where
      by_test :
          (b : Bool)
          → (node == d) ≡ b
          → (if b then black else colour_of s.colour d) ≡ black
          → Memᴰ d (node ∷ done)
      by_test true e h = Memᴰ.head (sym ((eq_iff node d).0 e))
      by_test false e h = Memᴰ.tail (inv.black_done d h)

  -- An edge has been looked at and leads nowhere new.
  pub pass-Inv :
      (s : Search) (done : List String) (node dep : String) (i : ℕ) (rest : List (String × ℕ))
      → s.stack ≡ (node, i) ∷ rest
      → get_elem? (dependencies adj node) i ≡ some dep
      → (is_some (lookup dep adj) ≡ true → Memᴰ dep done)
      → Inv adj s done
      → Inv adj (with_top s ((node, suc i) ∷ rest)) done
  pass-Inv s done node dep i rest stack at_i known inv =
      let l = subst (Looked adj done none) stack inv.looked in
      record {
        grey_on_path = inv.grey_on_path;
        black_done = inv.black_done;
        path_names = inv.path_names ∙ ap names stack;
        trail = subst (Trail adj) stack inv.trail;
        looked = (Before-next adj done none node i dep at_i l.0 (λ key. inl (known key)), l.1);
        ordered = inv.ordered;
      }

  pub enter-Inv :
      (s : Search) (done : List String) (node dep : String) (i : ℕ) (rest : List (String × ℕ))
      → s.stack ≡ (node, i) ∷ rest
      → get_elem? (dependencies adj node) i ≡ some dep
      → Inv adj s done
      → Inv adj (enter (with_top s ((node, suc i) ∷ rest)) dep) done
  enter-Inv s done node dep i rest stack at_i inv =
      let l = subst (Looked adj done none) stack inv.looked in
      record {
        grey_on_path = λ d h. grey-enter s done dep d inv h;
        black_done = λ d h. black-enter s done dep d inv h;
        path_names = ap (λ p. p ++ dep ∷ []) (inv.path_names ∙ ap names stack);
        trail = ((i, at_i), subst (Trail adj) stack inv.trail);
        looked = (
          λ d k lt at key. ground arith,
          (Before-next adj done (some dep) node i dep at_i l.0 (λ key. inr refl), l.1),
        );
        ordered = inv.ordered;
      }

  pub leave-Inv :
      (s : Search) (done : List String) (node : String) (i : ℕ) (rest : List (String × ℕ))
      → s.stack ≡ (node, i) ∷ rest
      → get_elem? (dependencies adj node) i ≡ none
      → Inv adj s done
      → Inv adj (leave s node rest) (node ∷ done)
  leave-Inv s done node i rest stack at_end inv =
      let l = subst (Looked adj done none) stack inv.looked in
      record {
        grey_on_path = λ d h. grey-leave s done node d i rest stack inv h;
        black_done = λ d h. black-leave s done node d inv h;
        path_names = path-leave s done node i rest stack inv;
        trail = (subst (Trail adj) stack inv.trail).1;
        looked =
            Looked-finish adj done node (some node) none rest
              (λ d e. inl (Memᴰ.head (ground arith))) l.1;
        ordered = (
          λ d edge key.
              elim (l.0 d edge.0 (get_elem?-before (dependencies adj node) edge.0 i d edge.1 at_end)
                edge.1 key) [ inl finished ↦ finished | inr nothing ↦ ground arith ],
          inv.ordered,
        );
      }
