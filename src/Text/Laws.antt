-- ===== src/Text/Laws.antt =====
-- `strip` and `split` on texts that hold no space, or no separator.
use nodus.Prelude.{ℕ, ◌≡◌, refl, Bool, false, [], ◌∷◌, ◌++◌, All, arith, ◌==◌}
use nodus.Text.{Text, is_space, lstrip, rstrip, strip, split}

-- No character of the text is in the class.
abbrev pub Lacks : (ℕ → Bool) → Text → Type 0
Lacks p = All (λ c. p c ≡ false)

lstrip-Lacks : (s : Text) → Lacks is_space s → lstrip s ≡ s
unfolding lstrip
lstrip-Lacks [] h = refl
lstrip-Lacks (c ∷ s) h = rw h.0

rstrip-Lacks : (s : Text) → Lacks is_space s → rstrip s ≡ s
unfolding rstrip
rstrip-Lacks [] h = refl
rstrip-Lacks (c ∷ []) h = rw h.0
rstrip-Lacks (c ∷ d ∷ s) h = rw (rstrip-Lacks (d ∷ s) h.1)

pub strip-Lacks : (s : Text) → Lacks is_space s → strip s ≡ s
unfolding strip
strip-Lacks s h = rw (lstrip-Lacks s h) (rstrip-Lacks s h)

pub split-Lacks : (sep : ℕ) (s : Text) → Lacks (λ c. c == sep) s → split sep s ≡ s ∷ []
unfolding split
split-Lacks sep [] h = refl
split-Lacks sep (c ∷ s) h = rw (h.0, split-Lacks sep s h.1)

pub split-append :
    (sep : ℕ) (s t : Text) → Lacks (λ c. c == sep) s → split sep (s ++ sep ∷ t) ≡ s ∷ split sep t
unfolding split
split-append sep [] t h = ground arith
split-append sep (c ∷ s) t h = rw (h.0, split-append sep s t h.1)
