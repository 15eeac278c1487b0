-- ===== src/Collector/Writer/EventFiles.antt =====
-- What the files of the events of a namespace hold in the end.
use tvk_plugins.Base.{
  String, ◌<>◌, ◌==◌, ◌≡◌, refl, ap, ◌∙◌, Bool, true, false, if◌then◌else◌, Option, none, some,
  List, [], ◌∷◌, ◌++◌, starts_with,
}
use tvk_plugins.Action.{Result, ok, Action, pure, >>=-eq-ok, ok->>=}
use tvk_plugins.Paths.{join_path}
use tvk_plugins.Text.{dot_first_slash}
use tvk_plugins.Collector.Host.{
  Objects, Host, Session, Change, directory, file, bytes, yaml, event, removal, removal_all,
  archived, change,
}
use tvk_plugins.Collector.Filters.{Options}
use tvk_plugins.Collector.Writer.{write_events_of}

-- The file of an event of a directory, by its key.
abbrev pub file_of : String → String → String
file_of dir key = join_path (dir ∷ dot_first_slash key ∷ []) <> ".yaml"

-- The last entry of a path, or what was there before.
abbrev pub last_of : {V : Type 0} → String → String → List (String × V) → Option V → Option V
last_of dir p [] o = o
last_of dir p ((key, m) ∷ es) o = last_of dir p es (if file_of dir key == p then some m else o)

module _ (O : Objects) (p : String) where
  -- What a change makes of the event that the file of a path holds, if it holds one.
  abbrev pub effect : Change O → Option O.Map → Option O.Map
  effect (file q) o = if q == p then none else o
  effect (event q m) o = if q == p then some m else o
  effect (directory q mode) o = o
  effect (bytes q b) o = if q == p then none else o
  effect (yaml q m) o = if q == p then none else o
  effect (removal q) o = if q == p then none else o
  effect (removal_all q) o = if starts_with p (q <> "/") then none else o
  effect (archived zip q) o = o

  abbrev pub held_after : List (Change O) → Option O.Map → Option O.Map
  held_after [] o = o
  held_after (c ∷ cs) o = held_after cs (effect c o)

  held_after-append :
      (cs ds : List (Change O)) (o : Option O.Map)
      → held_after (cs ++ ds) o ≡ held_after ds (held_after cs o)
  held_after-append [] ds o = refl
  held_after-append (c ∷ cs) ds o = held_after-append cs ds (effect c o)

  rewritten :
      (q : String) (m : O.Map) (o : Option O.Map)
      → effect (event q m) (effect (file q) o) ≡ (if q == p then some m else o)
  rewritten q m o = by_test (q == p)
    where
      by_test :
          (b : Bool) → (if b then some m else if b then none else o) ≡ (if b then some m else o)
      by_test true = refl
      by_test false = refl

  module _ (H : Host O) where
    -- One change more.
    held_after-change :
        (c : Change O) (call : Action H.State (Unit {0})) (w : Session H)
        → held_after (change H c call w).1.done none ≡ effect c (held_after w.done none)
    unfolding change
    held_after-change c call w = held_after-append w.done (c ∷ []) none

    -- A file is created anew for each event, so it holds only the last one: if the events of a directory
    -- are written without an error, the file of a path holds the last event of that path, and what it
    -- held before where there is none.
    pub write_events_of-last :
        (l : Options) (dir : String) (es : List (String × O.Map)) (w : Session H)
        → (write_events_of H l dir es w).0 ≡ ok tt
        → held_after (write_events_of H l dir es w).1.done none
          ≡ last_of dir p es (held_after w.done none)
    unfolding write_events_of
    write_events_of-last l dir [] w h = unfold pure in refl
    write_events_of-last l dir ((key, m) ∷ es) w h =
        let q = file_of dir key in
        let (_, created, h') = >>=-eq-ok _ _ w tt h in
        let (_, written, h'') = >>=-eq-ok _ _ _ tt h' in
        let first = change H (file q) (H.create q) in
        let second = change H (event q m) (H.write_yaml q m) in
        let u = (first w).1 in
        let v = (second u).1 in
        let here =
          held_after-change (event q m) (H.write_yaml q m) u
          ∙ ap (effect (event q m)) (held_after-change (file q) (H.create q) w)
          ∙ rewritten q m (held_after w.done none) in
        ap (λ (r : Result (Unit {0}) × Session H). held_after r.1.done none)
          (ok->>= _ _ w _ created ∙ ok->>= _ _ _ _ written)
        ∙ write_events_of-last l dir es v h''
        ∙ ap (last_of dir p es) here
