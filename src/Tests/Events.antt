-- ===== src/Tests/Events.antt =====
-- Three events, a secret and a claim, and the theorems on what is aggregated, written, left alone and
-- read once.
use tvk_plugins.Base.{String, true, false, ◌≡◌, ◌≢◌, refl, none, List, [], ◌∷◌, map, All, length}
use tvk_plugins.Base.Dict.{Dict, lookup, get_or}
use tvk_plugins.Action.{ok}
use tvk_plugins.Collector.Host.{Host, Session, NamespacedName, ApiResource}
use tvk_plugins.Collector.Filters.{matches_input_gvks}
use tvk_plugins.Collector.Gather.Events.{Involved, aggregate_events}
use tvk_plugins.Collector.Gather.Events.Aggregated.{Read, IsRead, entries, aggregate_events-entries}
use tvk_plugins.Collector.Writer.{write_events_of}
use tvk_plugins.Collector.Writer.EventFiles.{held_after, last_of, write_events_of-last}
use tvk_plugins.Collector.Gather.Run.{Found, gather_resource, get_pvcs}
use tvk_plugins.Collector.Gather.Run.Claims.{IsRound, get_pvcs-IsRound}
use tvk_plugins.Collector.Gather.Run.Secrets.{filtered_names, gather_resource-excluded}
use tvk_plugins.Tests.Trees.{PathMap, path_objects}
use tvk_plugins.Tests.Collecting.{machine, fresh, clustered_run}

abbrev event_named : String → PathMap
event_named name = record {
  kind = "Event";
  name = name;
  namespace = "default";
  paths = ("message" ∷ []) ∷ ("metadata" ∷ "name" ∷ []) ∷ [];
}

-- No event of this cluster names its object.
abbrev unnamed : Involved
unnamed = record { api_version = ""; namespace = "default"; kind = ""; name = "" }

abbrev three_events : List (Read path_objects)
three_events =
    (unnamed, event_named "one")
    ∷ (unnamed, event_named "two")
    ∷ (unnamed, event_named "three")
    ∷ []

abbrev collected : Dict (List NamespacedName)
collected = ("", record { namespace = "default"; name = "" } ∷ []) ∷ []

three_events-IsRead : All (IsRead path_objects) three_events
unfolding tvk_plugins.Collector.Gather.Events.involved_of
three_events-IsRead = (refl, (refl, (refl, tt)))

three_entries :
    map (λ x. x.1.name) (entries path_objects collected "default" three_events)
    ≡ "one" ∷ "two" ∷ "three" ∷ []
unfolding tvk_plugins.Collector.Gather.Events.is_collected lookup
three_entries = refl

aggregate_events-entries_example :
    (d : Dict (List (String × PathMap))) × (aggregate_events path_objects
        (map (λ (x : Read path_objects). x.1) three_events)
        collected
      ≡ ok d)
    × ((ns : String) → get_or ns [] d ≡ entries path_objects collected ns three_events)
aggregate_events-entries_example =
    aggregate_events-entries path_objects collected three_events three_events-IsRead

-- Two events of one pod, and one of another.
abbrev pod_events : List (String × PathMap)
pod_events =
    ("pod/tvk", event_named "first")
    ∷ ("pod/other", event_named "else")
    ∷ ("pod/tvk", event_named "second")
    ∷ []

pod_events_written : (write_events_of machine clustered_run "out/Event" pod_events fresh).0 ≡ ok tt
unfolding write_events_of tvk_plugins.Action.◌>>=◌ tvk_plugins.Collector.Host.change
pod_events_written = refl

write_events_of-last_example :
    held_after path_objects "out/Event/pod.tvk.yaml"
      (write_events_of machine clustered_run "out/Event" pod_events fresh).1.done
      none
    ≡ last_of "out/Event" "out/Event/pod.tvk.yaml" pod_events none
write_events_of-last_example =
    write_events_of-last path_objects "out/Event/pod.tvk.yaml" machine clustered_run "out/Event"
      pod_events fresh pod_events_written

abbrev secrets : ApiResource
secrets = record {
  name = "secrets";
  kind = "Secret";
  group = "";
  version = "";
  namespaced = true;
  verbs = "get" ∷ "list" ∷ [];
}

secrets_named : All (λ n. secrets.name ≢ n) filtered_names
secrets_named = (λ h. cc h, (λ h. cc h, (λ h. cc h, (λ h. cc h, tt))))

secrets_unasked : matches_input_gvks clustered_run secrets "v1" ≡ false
unfolding matches_input_gvks tvk_plugins.Text.equal_fold
secrets_unasked = refl

nothing_found : Found path_objects
nothing_found = record { pods = []; names = []; event_resource = secrets }

gather_resource-excluded_example :
    gather_resource machine clustered_run false "v1" secrets nothing_found fresh
    ≡ (ok nothing_found, fresh)
gather_resource-excluded_example =
    gather_resource-excluded machine clustered_run "v1" secrets refl secrets_named nothing_found
      fresh secrets_unasked

abbrev claim : NamespacedName
claim = record { namespace = "tvk"; name = "data" }

-- The same machine, and every object is there.
abbrev rich : Host path_objects
rich = record machine { get_object = λ p s. (ok (event_named p), s) }

abbrev untouched : Session rich
untouched = record { host = tt; done = []; namespaces = []; install_namespace = ""; collected = [] }

-- The claim of two pods is read once.
claim_read_once :
    length (get_pvcs rich clustered_run (claim ∷ claim ∷ []) untouched).1.collected ≡ 1
unfolding get_pvcs tvk_plugins.Action.◌>>=◌ tvk_plugins.Collector.Host.ask
    tvk_plugins.Collector.Gather.Run.is_collected_pvc
    tvk_plugins.Collector.Gather.Run.mark_collected
claim_read_once = refl

get_pvcs-IsRound_example :
    IsRound rich clustered_run
      (claim ∷ claim ∷ [])
      untouched
      (get_pvcs rich clustered_run (claim ∷ claim ∷ []) untouched)
get_pvcs-IsRound_example = get_pvcs-IsRound rich clustered_run (claim ∷ claim ∷ []) untouched
