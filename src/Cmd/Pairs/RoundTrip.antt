-- ===== src/Cmd/Pairs/RoundTrip.antt =====
-- Printed pairs are parsed to themselves.
use Prim.Native.Char.{Char, code}
use Prim.Native.String.{[], ◌∷◌}
use text.Mathlib.TextLemmas.{nil-append, cons-append}
use tvk_plugins.Base.{
  String, ◌<>◌, false, ◌≡◌, ◌≢◌, refl, ap, ◌∙◌, List, [], ◌∷◌, ◌++◌, map, append_assoc, append-nil,
  ◌==◌, All, All-append,
}
use tvk_plugins.Base.Dict.{Dict, insert}
use tvk_plugins.Action.{Error, ok}
use tvk_plugins.Text.{split, join, is_code}
use tvk_plugins.Text.Splits.{Lacks, split-join}
use tvk_plugins.Cmd.Pairs.{
  parse_pairs, syntax_error, labels_error, parse_node_selector_labels, parse_label_selector,
}

abbrev pub print_pair : String × String → String
print_pair (k, v) = join "=" (k ∷ v ∷ [])

abbrev pub print_pairs : Char → Dict String → String
print_pairs sep d = join sep (map print_pair d)

-- Keys and values without a separator.
abbrev pub IsPair : Char → String × String → Type 0
IsPair sep (k, v) = Lacks "=" k × Lacks "=" v × Lacks sep k × Lacks sep v

abbrev pub Fresh : Dict String → String × String → Type 0
Fresh m p = All (λ q. (q.0 == p.0) ≡ false) m

-- No key comes twice.
abbrev pub Distinct : Dict String → Type 0
Distinct [] = Unit
Distinct (p ∷ d) = All (λ q. (p.0 == q.0) ≡ false) d × Distinct d

insert-Fresh :
    (p : String × String) (m : Dict String) → Fresh m p → insert p.0 p.1 m ≡ m ++ (p ∷ [])
unfolding insert
insert-Fresh p [] h = refl
insert-Fresh p (q ∷ m) (h, hs) = rw (h, insert-Fresh p m hs) refl

Fresh-snoc :
    (p : String × String) (m d : Dict String)
    → All (Fresh m) d
    → All (λ q. (p.0 == q.0) ≡ false) d
    → All (Fresh (m ++ (p ∷ []))) d
Fresh-snoc p m [] h k = tt
Fresh-snoc p m (q ∷ d) (h, hs) (k, ks) =
    (All-append (λ r. (r.0 == q.0) ≡ false) m (p ∷ []) h (k, tt), Fresh-snoc p m d hs ks)

split-print_pair :
    (p : String × String)
    → Lacks "=" p.0
    → Lacks "=" p.1
    → split "=" (print_pair p) ≡ p.0 ∷ p.1 ∷ []
split-print_pair (k, v) h l = split-join "=" k (v ∷ []) (h, (l, tt))

parse_pairs-print :
    (sep : Char) (e : Error) (d m : Dict String)
    → All (IsPair sep) d
    → Distinct d
    → All (Fresh m) d
    → parse_pairs e (map print_pair d) m ≡ ok (m ++ d)
unfolding parse_pairs
parse_pairs-print sep e [] m h k f = rw append-nil
parse_pairs-print sep e ((k, v) ∷ d) m ((hk, hv, _, _), hs) (new, ks) (f, fs) =
    rw (split-print_pair (k, v) hk hv, parse_pairs, insert-Fresh (k, v) m f)
      (parse_pairs-print sep e d (m ++ ((k, v) ∷ [])) hs ks (Fresh-snoc (k, v) m d fs new)
        ∙ ap ok (append_assoc m ((k, v) ∷ []) d))

module _ (sep : Char) (apart : is_code (code sep) "=" ≡ false) where
  Lacks-cons : (k v : String) → Lacks sep k → Lacks sep v → Lacks sep (k <> ("=" ∷ v))
  Lacks-cons [] v h i = rw (nil-append) (apart, i)
  Lacks-cons (c ∷ k) v (h, hs) i = rw (cons-append) (h, Lacks-cons k v hs i)

  Lacks-print : (d : Dict String) → All (IsPair sep) d → All (Lacks sep) (map print_pair d)
  unfolding join
  Lacks-print [] h = tt
  Lacks-print ((k, v) ∷ d) ((_, _, hk, hv), hs) = (Lacks-cons k v hk hv, Lacks-print d hs)

  pub parse_pairs-print_pairs :
      (e : Error) (d : Dict String)
      → d ≢ []
      → All (IsPair sep) d
      → Distinct d
      → parse_pairs e (split sep (print_pairs sep d)) [] ≡ ok d
  parse_pairs-print_pairs e [] ne h k = absurd (ne refl)
  parse_pairs-print_pairs e (p ∷ d) ne h k =
      ap (λ ps. parse_pairs e ps [])
        (split-join sep (print_pair p) (map print_pair d) (Lacks-print (p ∷ d) h))
      ∙ parse_pairs-print sep e (p ∷ d) [] h k (fresh (p ∷ d))
    where
      fresh : (d : Dict String) → All (Fresh []) d
      fresh [] = tt
      fresh (p ∷ d) = (tt, fresh d)

-- A map of labels that is not empty, has no key twice and no ",", and no "=" in its keys and values,
-- is parsed back from its text.
pub parse_node_selector_labels-print_pairs :
    (d : Dict String)
    → d ≢ []
    → All (IsPair ",") d
    → Distinct d
    → parse_node_selector_labels (print_pairs "," d) ≡ ok d
unfolding parse_node_selector_labels
parse_node_selector_labels-print_pairs d ne h k =
    parse_pairs-print_pairs "," refl syntax_error d ne h k

abbrev pub IsSelector : Dict String → Type 0
IsSelector d = (d ≢ []) × All (IsPair "|") d × Distinct d

-- Label selectors, each a map that is not empty, has no key twice and no "|", and no "=" in its keys
-- and values, are parsed back from their texts, in order.
pub parse_label_selector-print_pairs :
    (ds : List (Dict String))
    → All IsSelector ds
    → parse_label_selector (map (print_pairs "|") ds) ≡ ok ds
unfolding parse_label_selector
parse_label_selector-print_pairs [] h = refl
parse_label_selector-print_pairs (d ∷ ds) ((ne, pairs, distinct), hs) =
    rw
      (
        parse_pairs-print_pairs "|" refl labels_error d ne pairs distinct,
        parse_label_selector,
        parse_label_selector-print_pairs ds hs,
      )
      refl
