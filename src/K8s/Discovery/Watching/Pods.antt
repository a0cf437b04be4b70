-- ===== src/K8s/Discovery/Watching/Pods.antt =====
-- k8s/discovery.go: the pods of the inventory and the watched namespaces.
use hawkular_openshift_agent.Base.{
  Str, str_eq, str_eq_iff, string_eq, Bool, true, false, not, ◌||◌, ◌≡◌, refl, inl, inr, Bool-cases,
  [], ◌∷◌, All, arith, if◌then◌else◌, ◌∙◌,
}
use hawkular_openshift_agent.Base.Map
use hawkular_openshift_agent.Base.Map.{Map, has-put, has-delete, All-put, All-delete}
use hawkular_openshift_agent.K8s.Pod.{
  Pod, PodInventory, IsNamed, get_identifier, get_identifier_inj, add_pod, remove_pod, for_each_pod,
}
use hawkular_openshift_agent.K8s.Discovery.{
  Discovery, stop_watcher, can_stop_watcher, watch_config_map, unwatch_config_map,
}

-- Some pod of the inventory is in the namespace.
unfoldable pub any_in : PodInventory → Str → Bool
any_in [] ns = false
any_in ((k, p) ∷ pods) ns = str_eq p.namespace.name ns || any_in pods ns

pub str_eq_sym : (a b : Str) → str_eq a b ≡ str_eq b a
str_eq_sym a b = ground (arith, str_eq_iff a b, str_eq_iff b a)

for_each_pod-stop_watcher :
    (pods : PodInventory) (ns : Str)
    → for_each_pod pods (stop_watcher ns) true ≡ not (any_in pods ns)
unfolding for_each_pod any_in stop_watcher
for_each_pod-stop_watcher [] ns = refl
for_each_pod-stop_watcher ((k, p) ∷ pods) ns =
    ground (arith, str_eq_sym p.namespace.name ns, for_each_pod-stop_watcher pods ns)

-- Each pod stands under its identifier.
abbrev pub IsKeyed : Str × Pod → Type 0
IsKeyed (k, p) = (get_identifier p ≡ k) × IsNamed p

pub same_namespace :
    (p q : Pod) (k : Str)
    → IsNamed p
    → IsKeyed (k, q)
    → str_eq k (get_identifier p) ≡ true
    → q.namespace.name ≡ p.namespace.name
same_namespace p q k hp hq h =
    (get_identifier_inj q p hq.1 hp (hq.0 ∙ ground (arith, str_eq_iff k (get_identifier p)))).1

pub any_in-add_pod :
    (pods : PodInventory) (p : Pod) (ns : Str)
    → All IsKeyed pods
    → IsNamed p
    → any_in (add_pod pods p) ns ≡ (str_eq p.namespace.name ns || any_in pods ns)
unfolding any_in add_pod Map.put
any_in-add_pod [] p ns h hp = refl
any_in-add_pod ((k, q) ∷ pods) p ns h hp = elim (Bool-cases (str_eq k (get_identifier p))) [
  | inl same ↦ ground (arith, same_namespace p q k hp h.0 same)
  | inr other ↦ ground (arith, any_in-add_pod pods p ns h.1 hp)
]

pub any_in-remove_pod :
    (pods : PodInventory) (p : Pod) (ns : Str)
    → All IsKeyed pods
    → IsNamed p
    → str_eq p.namespace.name ns ≡ false
    → any_in (remove_pod pods p) ns ≡ any_in pods ns
unfolding any_in remove_pod Map.delete
any_in-remove_pod [] p ns h hp other_ns = refl
any_in-remove_pod ((k, q) ∷ pods) p ns h hp other_ns =
    elim (Bool-cases (str_eq k (get_identifier p))) [
      | inl same ↦
          ground
            (arith, same_namespace p q k hp h.0 same, any_in-remove_pod pods p ns h.1 hp other_ns)
      | inr other ↦ ground (arith, any_in-remove_pod pods p ns h.1 hp other_ns)
    ]

pub remove_pod_le :
    (pods : PodInventory) (p : Pod) (ns : Str)
    → any_in (remove_pod pods p) ns ≡ true
    → any_in pods ns ≡ true
unfolding any_in remove_pod Map.delete
remove_pod_le [] p ns h = h
remove_pod_le ((k, q) ∷ pods) p ns h = ground (arith, remove_pod_le pods p ns)

-- Each pod stands under its identifier, and the config maps of a namespace are watched exactly
-- while some pod of the inventory is in it.
pub record IsWatching (d : Discovery) : Type 0 where
  pub keyed : All IsKeyed d.pods
  pub watched : (ns : Str) → Map.has d.config_map_watchers ns ≡ any_in d.pods ns

pub watch_lem :
    (d : Discovery) (ns ns' : Str)
    → Map.has (watch_config_map d ns).config_map_watchers ns'
      ≡ (str_eq ns ns' || Map.has d.config_map_watchers ns')
unfolding watch_config_map
watch_lem d ns ns' = ground (arith, str_eq_iff ns ns', has-put d.config_map_watchers ns ns' tt)

pub watch_config_map-pods : (d : Discovery) (ns : Str) → (watch_config_map d ns).pods ≡ d.pods
unfolding watch_config_map
watch_config_map-pods d ns = ground arith

-- Added and Modified.
pub add-IsWatching :
    (d : Discovery) (p : Pod)
    → IsNamed p
    → IsWatching d
    → IsWatching (watch_config_map (record d { pods = add_pod d.pods p }) p.namespace.name)
add-IsWatching d p hp w =
    let d1 = record d { pods = add_pod d.pods p } in
    record {
      keyed =
          rw (watch_config_map-pods d1 p.namespace.name)
            (unfold add_pod in All-put IsKeyed d.pods (get_identifier p) p w.keyed (refl, hp));
      watched = λ ns. rw (watch_config_map-pods d1 p.namespace.name) (
          ground (
            arith,
            watch_lem d1 p.namespace.name ns,
            any_in-add_pod d.pods p ns w.keyed hp,
            w.watched ns,
          ));
    }

pub can_stop_watcher_lem :
    (pods : PodInventory) (ns : Str) → can_stop_watcher pods ns ≡ not (any_in pods ns)
unfolding can_stop_watcher
can_stop_watcher_lem pods ns = for_each_pod-stop_watcher pods ns

pub unwatch_lem :
    (d : Discovery) (ns ns' : Str)
    → Map.has (unwatch_config_map d ns).config_map_watchers ns'
      ≡ (if str_eq ns ns' then false else Map.has d.config_map_watchers ns')
unfolding unwatch_config_map
unwatch_lem d ns ns' = has-delete d.config_map_watchers ns ns'

pub unwatch_config_map-pods : (d : Discovery) (ns : Str) → (unwatch_config_map d ns).pods ≡ d.pods
unfolding unwatch_config_map
unwatch_config_map-pods d ns = refl

pub remove_pod-watched :
    (d : Discovery) (p : Pod) (ns : Str)
    → IsNamed p
    → IsWatching d
    → any_in (remove_pod d.pods p) ns ≡ (
        if str_eq p.namespace.name ns
        then any_in (remove_pod d.pods p) p.namespace.name
        else Map.has d.config_map_watchers ns)
remove_pod-watched d p ns hp w =
    ground (
      arith,
      str_eq_iff p.namespace.name ns,
      any_in-remove_pod d.pods p ns w.keyed hp,
      w.watched ns,
    )

pub remove-IsWatching :
    (d : Discovery) (p : Pod)
    → IsNamed p
    → IsWatching d
    → let d1 = record d { pods = remove_pod d.pods p } in
      IsWatching (
        if can_stop_watcher d1.pods p.namespace.name
        then unwatch_config_map d1 p.namespace.name
        else d1)
remove-IsWatching d p hp w =
    let d1 = record d { pods = remove_pod d.pods p } in
    let ns = p.namespace.name in
    let keyed : All IsKeyed d1.pods =
      unfold remove_pod in All-delete IsKeyed d.pods (get_identifier p) w.keyed in
    elim (Bool-cases (can_stop_watcher d1.pods ns)) [
      | inl stop ↦ rw stop (record {
        keyed = rw (unwatch_config_map-pods d1 ns) keyed;
        watched = λ ns'. rw (unwatch_config_map-pods d1 ns) (
            ground (
              arith,
              unwatch_lem d1 ns ns',
              can_stop_watcher_lem d1.pods ns,
              remove_pod-watched d p ns' hp w,
            ));
      })
      | inr go_on ↦ rw go_on (record {
        keyed = keyed;
        watched = λ ns'. ground (
          arith,
          can_stop_watcher_lem d1.pods ns,
          remove_pod-watched d p ns' hp w,
          remove_pod_le d.pods p ns',
          w.watched ns',
          str_eq_iff ns ns',
        );
      })
    ]
