-- ===== src/K8s/Pod.antt =====
-- k8s/pod.go, k8s/node.go, k8s/namespace.go and k8s/pod_inventory.go: pods, by their identifier.
mod Tests
use hawkular_openshift_agent.Base.{
  not, ◌&&◌, ==_iff, Str, str_eq, string_eq, codes, ℕ, ◌==◌, ◌≡◌, refl, ◌≢◌, Bool, true, false,
  List, [], ◌∷◌, ◌++◌, All, arith, ap, if◌then◌else◌,
}
use hawkular_openshift_agent.Base.Map
use hawkular_openshift_agent.Base.Map.{Map}

pub record Node : Type 0 where
  pub name : Str
  pub uid : Str

pub record Namespace : Type 0 where
  pub name : Str
  pub uid : Str

pub record Pod : Type 0 where
  pub node : Node
  pub namespace : Namespace
  pub name : Str
  pub uid : Str
  pub pod_ip : Str
  pub host_ip : Str
  pub hostname : Str
  pub subdomain : Str
  pub labels : Map Str Str
  pub annotations : Map Str Str
  pub config_map_volumes : Map Str Str
  pub cluster_name : Str
  pub resource_version : Str
  pub self_link : Str

abbrev pub slash : ℕ
slash = b'/'

unfoldable pub get_identifier : Pod → Str
get_identifier p = p.node.name ++ slash ∷ (p.namespace.name ++ slash ∷ (p.name ++ slash ∷ p.uid))

-- DiscoveredPods, by pod identifier.
abbrev pub PodInventory : Type 0
PodInventory = Map Str Pod

unfoldable pub add_pod : PodInventory → Pod → PodInventory
add_pod pi p = Map.put pi (get_identifier p) p

unfoldable pub remove_pod : PodInventory → Pod → PodInventory
remove_pod pi p = Map.delete pi (get_identifier p)

unfoldable pub replace_pod : PodInventory → Pod → PodInventory
unfolding add_pod
replace_pod pi p = add_pod pi p

unfoldable pub has_pod : PodInventory → Pod → Bool
has_pod pi p = Map.has pi (get_identifier p)

-- ForEachPod with a function on a state: the function says whether to go on.
unfoldable pub for_each_pod {ℓ} : {S : Type ℓ} → PodInventory → (Pod → S → S × Bool) → S → S
for_each_pod [] f s = s
for_each_pod ((k, p) ∷ pi) f s =
    let rest = for_each_pod pi f (f p s).0 in if (f p s).1 then rest else (f p s).0

abbrev pub NoSlash : Str → Type 0
NoSlash = All (λ c. c ≢ slash)

-- Kubernetes names hold no slash.
pub record IsNamed (p : Pod) : Type 0 where
  pub node : NoSlash p.node.name
  pub namespace : NoSlash p.namespace.name
  pub name : NoSlash p.name

split_slash :
    (a b s t : Str) → NoSlash a → NoSlash b → a ++ slash ∷ s ≡ b ++ slash ∷ t → (a ≡ b) × (s ≡ t)
split_slash [] [] s t ha hb e = ground arith
split_slash [] (d ∷ b) s t ha hb e = ground arith
split_slash (c ∷ a) [] s t ha hb e = ground arith
split_slash (c ∷ a) (d ∷ b) s t ha hb e = ground (arith, split_slash a b s t ha.1 hb.1)

-- Two pods whose names hold no slash have the same identifier only if they are the same pod by
-- node, namespace, name and uid.
pub get_identifier_inj :
    (p q : Pod)
    → IsNamed p
    → IsNamed q
    → get_identifier p ≡ get_identifier q
    → (p.node.name ≡ q.node.name)
      × (p.namespace.name ≡ q.namespace.name)
      × (p.name ≡ q.name)
      × (p.uid ≡ q.uid)
unfolding get_identifier
get_identifier_inj p q hp hq e =
    let (node, rest) = split_slash p.node.name q.node.name _ _ hp.node hq.node e in
    let (ns, rest') =
      split_slash p.namespace.name q.namespace.name _ _ hp.namespace hq.namespace rest in
    let (name, uid) = split_slash p.name q.name _ _ hp.name hq.name rest' in (node, ns, name, uid)

unfoldable pub has_no_slash : Str → Bool
has_no_slash [] = true
has_no_slash (c ∷ s) = not (c == slash) && has_no_slash s

-- A concrete text is checked by its characters.
pub has_no_slash-NoSlash : (s : Str) → has_no_slash s ≡ true → NoSlash s
unfolding has_no_slash
has_no_slash-NoSlash [] h = tt
has_no_slash-NoSlash (c ∷ s) h =
    (ground (arith, ==_iff c slash), has_no_slash-NoSlash s (ground arith))
