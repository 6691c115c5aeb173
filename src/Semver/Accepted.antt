-- ===== src/Semver/Accepted.antt =====
-- A range that `VersionRange.parse` accepts never meets the unsupported operator of `matches`.
use nodus.Prelude.{◌≡◌, refl, Bool, true, false, some, List, [], ◌∷◌, arith, if◌then◌else◌}
use nodus.Prelude.Monad.{Yields, raises, returns, Yields-bind, Yields-eq_some, yields_rules}
use nodus.Text.{Text}
use nodus.Semver.{
  Version, Comparator, comparator, matches, range_matches, parse_part, parse_parts, parse_range,
  nonempty_range,
}

-- The comparator's operator is one of the five that `matches` knows.
abbrev Supported : Comparator → Type 0
Supported c = (v : Version) → (b : Bool) × (matches c v ≡ some b)

eq-Supported : (w : Version) → Supported (comparator "==" w)
unfolding matches
eq-Supported w v = (_, refl)

ge-Supported : (w : Version) → Supported (comparator ">=" w)
unfolding matches
ge-Supported w v = (_, refl)

le-Supported : (w : Version) → Supported (comparator "<=" w)
unfolding matches
le-Supported w v = (_, refl)

gt-Supported : (w : Version) → Supported (comparator ">" w)
unfolding matches
gt-Supported w v = (_, refl)

lt-Supported : (w : Version) → Supported (comparator "<" w)
unfolding matches
lt-Supported w v = (_, refl)

parse_part-Supported : (p : Text) → Yields Supported (parse_part p)
unfolding parse_part
parse_part-Supported p =
    search (yields_rules, eq-Supported, ge-Supported, le-Supported, gt-Supported, lt-Supported)
      depth 9

-- A list of comparators that answers at every version.
abbrev Answering : List Comparator → Type 0
Answering cs = (v : Version) → (b : Bool) × (range_matches cs v ≡ some b)

Answering-cons :
    (c : Comparator) (cs : List Comparator) → Supported c → Answering cs → Answering (c ∷ cs)
unfolding range_matches
Answering-cons c cs h k v =
    let (b, e) = h v in let (r, f) = k v in ((if b then r else false), ground arith)

Answering-nil : Answering []
unfolding range_matches
Answering-nil v = (true, refl)

parse_parts-Answering : (ps : List Text) → Yields Answering (parse_parts ps)
unfolding parse_parts
parse_parts-Answering [] = returns Answering-nil
parse_parts-Answering (p ∷ ps) = Yields-bind (parse_part p) _ (parse_part-Supported p) λ c hc.
    Yields-bind (parse_parts ps) _ (parse_parts-Answering ps)
      λ cs hcs. returns (Answering-cons c cs hc hcs)

nonempty-Answering : (ps : List Text) → Yields Answering (nonempty_range ps)
nonempty-Answering [] = raises
nonempty-Answering (p ∷ ps) = parse_parts-Answering (p ∷ ps)

between-Answering :
    (low high : Version) → Answering (comparator ">=" low ∷ comparator "<" high ∷ [])
between-Answering low high =
    Answering-cons _ _ (ge-Supported low) (Answering-cons _ [] (lt-Supported high) Answering-nil)

-- Once a range is parsed, matching any version against it returns an answer and does not raise.
pub parsed_range_answers :
    (text : Text) (cs : List Comparator) (v : Version)
    → parse_range text ≡ some cs
    → (b : Bool) × (range_matches cs v ≡ some b)
unfolding parse_range
parsed_range_answers text cs v e =
    Yields-eq_some {P = Answering} cs
      (search (yields_rules, between-Answering, nonempty-Answering) depth 9) e v
