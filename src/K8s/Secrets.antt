-- ===== src/K8s/Secrets.antt =====
-- k8s/node_event_consumer.go: the credentials of an endpoint, some of which are keys of secrets.
-- `secrets` is the look-up of a secret of the pod's namespace, by name: its data, if it is there.
use hawkular_openshift_agent.Base.{
  Str, codes, string_eq, ℕ, ◌==◌, starts_with, Bool, false, ◌||◌, Option, none, some, [], ◌∷◌,
  if◌then◌else◌,
}
use hawkular_openshift_agent.Base.Map
use hawkular_openshift_agent.Base.Map.{Map}
use hawkular_openshift_agent.Collector.{Credentials}

pub data SecretError : Type 0 where
  secret_invalid no_secret no_key : SecretError

-- The cutset of strings.TrimLeft(v, "secret:").
unfoldable pub in_cutset : ℕ → Str → Bool
in_cutset c [] = false
in_cutset c (d ∷ cutset) = c == d || in_cutset c cutset

unfoldable pub trim_left : Str → Str → Str
unfolding in_cutset
trim_left [] cutset = []
trim_left (c ∷ s) cutset =
    let rest = trim_left s cutset in if in_cutset c cutset then rest else c ∷ s

-- strings.SplitN(v, "/", 2), if it has two parts.
split_pair : Str → Option (Str × Str)
split_pair [] = none
split_pair (c ∷ s) =
    let rest = split_pair s in
    if c == b'/' then some ([], s) else elim rest [ none ↦ none | some (a, b) ↦ some (c ∷ a, b) ]

abbrev pub secret : Str
secret = codes "secret:"

module _ (secrets : Str → Option (Map Str Str)) where
  value_of_key : Str → Option (Map Str Str) → Str × Option SecretError
  value_of_key key none = ([], some no_secret)
  value_of_key key (some secret_data) = elim (Map.get secret_data key) [
    | none ↦ ([], some no_key)
    | some value ↦ (value, none)
  ]

  value_of_pair : Option (Str × Str) → Str × Option SecretError
  unfolding value_of_key
  value_of_pair none = ([], some secret_invalid)
  value_of_pair (some (name, key)) = value_of_key key (secrets name)

  -- The function f of determineCredentials: the value, and the error that it assigns to err.
  unfoldable pub secret_value : Str → Str × Option SecretError
  unfolding value_of_pair split_pair
  secret_value v =
      if starts_with v secret then value_of_pair (split_pair (trim_left v secret)) else (v, none)

  -- determineCredentials: the last error assigned is returned.
  unfoldable pub determine_credentials : Credentials → Credentials × Option SecretError
  determine_credentials c =
      let (username, e1) = secret_value c.username in
      let (password, e2) = secret_value c.password in
      let (token, e3) = secret_value c.token in
      (
        record { username = username; password = password; token = token },
        elim e3 [ some e ↦ some e | none ↦ elim e2 [ some e ↦ some e | none ↦ e1 ] ],
      )
