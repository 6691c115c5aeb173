-- ===== src/Vm/Sharing.antt =====
-- A captured local keeps its value, and its cell.
use mathlib.Core.Path.{subst}
use nodus.Prelude.{
  ℕ, zero, suc, ◌≡◌, refl, sym, ap, ◌∙◌, Option, none, some, List, [], ◌∷◌, String, get_elem?, set,
  arith,
}
use nodus.Prelude.Dict.{Dict, lookup, insert, lookup-insert_self}
use nodus.Tasks.{update}
use nodus.Vm.State.{Slot, plain, cell, Frame}
use nodus.Vm.Capture.{
  Captures, slot_in, slot_at, set_slot, slot_of, new_cell, capture_at, capture_local, in_slot,
  in_locals,
}

set-there :
    {V : Type 0} (slots : List (Slot V)) (i : ℕ) (old new : Slot V)
    → get_elem? slots i ≡ some old
    → get_elem? (set slots i new) i ≡ some new
set-there [] i old new h = ground arith
set-there (x ∷ xs) zero old new h = refl
set-there (x ∷ xs) (suc i) old new h = set-there xs i old new h

slot_in-set :
    {V : Type 0} (slots : Option (List (Slot V))) (d : Option (Dict ℕ)) (name : String) (i : ℕ)
    (x : Slot V)
    → slot_in (set_slot slots i x) d name ≡ slot_in slots d name
slot_in-set none d name i x = refl
slot_in-set (some slots) none name i x = refl
slot_in-set (some slots) (some d) name i x = refl

slot_at-set :
    {V : Type 0} (slots : Option (List (Slot V))) (i : ℕ) (old new : Slot V)
    → slot_at slots i ≡ some old
    → slot_at (set_slot slots i new) i ≡ some new
slot_at-set none i old new h = ground arith
slot_at-set (some slots) i old new h = set-there slots i old new h

update_self : {V : Type 0} (f : ℕ → V) (n : ℕ) (v : V) → update f n v n ≡ v
update_self f n v = ground arith

-- the value behind a local, nil where there is none
abbrev pub value_of : {V : Type 0} → V → (ℕ → V) → Option (Slot V) → V
value_of nil cells none = nil
value_of nil cells (some (plain v)) = v
value_of nil cells (some (cell c)) = cells c

module _ {V M : Type 0} where
  abbrev pub bound_at : Frame V M → String → Option ℕ → Option (Slot V)
  bound_at f name (some i) = slot_at f.locals_array i
  bound_at f name none = lookup name f.locals

  -- what a name stands for in a frame: the slot, or the local in the dictionary
  abbrev pub bound : Frame V M → String → Option (Slot V)
  bound f name = bound_at f name (slot_of f name)

  -- The name stands for the cell, which holds what the name had, and which is captured again.
  abbrev pub Shares : V → Captures V M → String → Captures V M → ℕ → Type 0
  Shares nil s name t c =
      (bound t.frame name ≡ some (cell c))
      × (t.cells c ≡ value_of nil s.cells (bound s.frame name))
      × (capture_local nil t name ≡ some (t, c))

  abbrev SharesOnce : V → Captures V M → String → Option (Captures V M × ℕ) → Type 0
  SharesOnce nil s name none = Unit
  SharesOnce nil s name (some (t, c)) = Shares nil s name t c

  module _ (nil : V) (s : Captures V M) (name : String) where
    slot-SharesOnce :
        (i : ℕ) (o : Option (Slot V))
        → slot_of s.frame name ≡ some i
        → slot_at s.frame.locals_array i ≡ o
        → SharesOnce nil s name (in_slot s name i o)
    unfolding capture_local
    slot-SharesOnce i none at_i h = tt
    slot-SharesOnce i (some (cell c)) at_i h = (
      ap (bound_at s.frame name) at_i ∙ h,
      ap (value_of nil s.cells) (sym (ap (bound_at s.frame name) at_i ∙ h)),
      ap (capture_at nil s name) at_i ∙ ap (in_slot s name i) h,
    )
    slot-SharesOnce i (some (plain v)) at_i h =
        let f = record s.frame {
          locals = insert name (cell s.next_cell) s.frame.locals;
          locals_array = set_slot s.frame.locals_array i (cell s.next_cell);
        } in
        let t = (new_cell s v f).0 in
        let there =
          slot_in-set s.frame.locals_array s.frame.locals_name_to_slot name i (cell s.next_cell)
          ∙ at_i in
        let now = slot_at-set s.frame.locals_array i (plain v) (cell s.next_cell) h in
        (
          ap (bound_at f name) there ∙ now,
          update_self s.cells s.next_cell v
              ∙ ap (value_of nil s.cells) (sym (ap (bound_at s.frame name) at_i ∙ h)),
          ap (capture_at nil t name) there ∙ ap (in_slot t name i) now,
        )

    -- a new cell for a local of the dictionary
    boxed :
        (v : V)
        → slot_of s.frame name ≡ none
        → value_of nil s.cells (bound s.frame name) ≡ v
        → SharesOnce nil s name (
            some (
              new_cell s v
                (record s.frame { locals = insert name (cell s.next_cell) s.frame.locals })))
    unfolding capture_local
    boxed v no_slot was =
        let f = record s.frame { locals = insert name (cell s.next_cell) s.frame.locals } in
        let t = (new_cell s v f).0 in
        let now = lookup-insert_self name (cell s.next_cell) s.frame.locals in
        (
          ap (bound_at f name) no_slot ∙ now,
          update_self s.cells s.next_cell v ∙ sym was,
          ap (capture_at nil t name) no_slot ∙ ap (λ o. some (in_locals nil t name o)) now,
        )

    locals-SharesOnce :
        (o : Option (Slot V))
        → slot_of s.frame name ≡ none
        → lookup name s.frame.locals ≡ o
        → SharesOnce nil s name (some (in_locals nil s name o))
    unfolding capture_local
    locals-SharesOnce (some (cell c)) no_slot h = (
      ap (bound_at s.frame name) no_slot ∙ h,
      ap (value_of nil s.cells) (sym (ap (bound_at s.frame name) no_slot ∙ h)),
      ap (capture_at nil s name) no_slot ∙ ap (λ o. some (in_locals nil s name o)) h,
    )
    locals-SharesOnce (some (plain v)) no_slot h =
        boxed v no_slot (ap (value_of nil s.cells) (ap (bound_at s.frame name) no_slot ∙ h))
    locals-SharesOnce none no_slot h =
        boxed nil no_slot (ap (value_of nil s.cells) (ap (bound_at s.frame name) no_slot ∙ h))

    -- When a local is captured by a closure, its name stands for the cell from then on, the
    -- cell holds the value that the local had (nil where the name was unbound), and
    -- capturing it again gives the same cell and changes nothing.
    pub capture_local-Shares :
        (t : Captures V M) (c : ℕ) → capture_local nil s name ≡ some (t, c) → Shares nil s name t c
    unfolding capture_local
    capture_local-Shares t c h =
        subst (SharesOnce nil s name) h (by_slot (slot_of s.frame name) refl)
      where
        by_slot :
            (o : Option ℕ)
            → slot_of s.frame name ≡ o
            → SharesOnce nil s name (capture_at nil s name o)
        by_slot (some i) e = slot-SharesOnce i (slot_at s.frame.locals_array i) e refl
        by_slot none e = locals-SharesOnce (lookup name s.frame.locals) e refl
