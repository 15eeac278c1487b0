-- ===== src/Collector/Gather/Events/Aggregated.antt =====
-- Which events are written, and where.
use tvk_plugins.Base.{
  String, ◌<>◌, ◌==◌, ◌≡◌, refl, sym, ap, ◌∙◌, Bool, true, false, if◌then◌else◌, List, [], ◌∷◌,
  ◌++◌, map, All, append-nil, append_assoc, eq_iff,
}
use tvk_plugins.Base.Dict.{Dict, lookup, get_or, get_or-insert}
use tvk_plugins.Action.{ok}
use tvk_plugins.Text.{to_lower}
use tvk_plugins.Collector.Host.{Objects, NamespacedName}
use tvk_plugins.Collector.Gather.Events.{
  Involved, is_collected, involved_of, trimmed_event, add_event, aggregate_from, aggregate_events,
}

module _ (O : Objects) where
  -- An event with the object that it is about.
  abbrev pub Read : Type 0
  Read = Involved × O.Map

  abbrev pub IsRead : Read → Type 0
  IsRead x = involved_of O x.1 ≡ ok x.0

  module _ (collected : Dict (List NamespacedName)) where
    -- The events on the objects of a namespace that were collected, in their order: the name of the object
    -- behind its kind, and what is left of the event.
    abbrev pub entries : String → List Read → List (String × O.Map)
    entries ns [] = []
    entries ns ((i, m) ∷ xs) =
        if is_collected collected i
        then (if i.namespace == ns
            then (to_lower i.kind <> "/" <> i.name, trimmed_event O m) ∷ entries ns xs
            else entries ns xs)
        else entries ns xs

    abbrev Found : Type 0
    Found = Dict (List (String × O.Map))

    added :
        (ns : String) (i : Involved) (m : O.Map) (xs : List Read) (found : Found) (b c : Bool)
        → (i.namespace == ns) ≡ c
        → get_or ns [] (if b then add_event O i m found else found) ++ entries ns xs
          ≡ get_or ns [] found
            ++ (if b
                then (if c
                    then (to_lower i.kind <> "/" <> i.name, trimmed_event O m) ∷ entries ns xs
                    else entries ns xs)
                else entries ns xs)
    added ns i m xs found false c e = refl
    added ns i m xs found true true e =
        ap (λ (l : List (String × O.Map)). l ++ entries ns xs)
          (get_or-insert i.namespace ns [] _ found
            ∙ (rw e refl)
            ∙ ap (λ (n : String). get_or n [] found ++ (x ∷ [])) ((eq_iff i.namespace ns).0 e))
        ∙ append_assoc (get_or ns [] found) (x ∷ []) (entries ns xs)
      where
        x : String × O.Map
        x = (to_lower i.kind <> "/" <> i.name, trimmed_event O m)
    added ns i m xs found true false e =
        ap (λ (l : List (String × O.Map)). l ++ entries ns xs)
          (get_or-insert i.namespace ns [] _ found ∙ (rw e refl))

    aggregate_from-step :
        (i : Involved) (m : O.Map) (ms : List O.Map) (found : Found)
        → involved_of O m ≡ ok i
        → aggregate_from O collected (m ∷ ms) found
          ≡ aggregate_from O collected ms
              (if is_collected collected i then add_event O i m found else found)
    unfolding aggregate_from
    aggregate_from-step i m ms found h = rw (h, aggregate_from) refl

    aggregate_from-entries :
        (xs : List Read)
        → All IsRead xs
        → (found : Found)
        → (d : Found) × (aggregate_from O collected (map (λ (x : Read). x.1) xs) found ≡ ok d)
          × ((ns : String) → get_or ns [] d ≡ get_or ns [] found ++ entries ns xs)
    unfolding aggregate_from
    aggregate_from-entries [] h found = (found, refl, λ ns. sym (append-nil (get_or ns [] found)))
    aggregate_from-entries ((i, m) ∷ xs) (h, hs) found =
        let (d, e, k) =
          aggregate_from-entries xs hs
            (if is_collected collected i then add_event O i m found else found) in
        (
          d,
          aggregate_from-step i m _ found h ∙ e,
          λ ns. k ns ∙ added ns i m xs found (is_collected collected i) (i.namespace == ns) refl,
        )

    -- Where the object of every listed event can be read: the aggregation succeeds, and for each namespace
    -- it holds exactly the events on collected objects of that namespace (or on objects of the product's
    -- groups), in the order of the list.
    pub aggregate_events-entries :
        (xs : List Read)
        → All IsRead xs
        → (d : Dict (List (String × O.Map))) × (aggregate_events O
              (map (λ (x : Read). x.1) xs)
              collected
            ≡ ok d)
          × ((ns : String) → get_or ns [] d ≡ entries ns xs)
    unfolding aggregate_events get_or lookup
    aggregate_events-entries xs h = aggregate_from-entries xs h []
