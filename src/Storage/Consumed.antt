-- ===== src/Storage/Consumed.antt =====
-- storage/metrics_storage.go: whole messages of definitions.
use hawkular_openshift_agent.Base.{Str, string_eq, false, ◌≡◌, refl, ◌∙◌, List, [], ◌∷◌, ◌++◌, All}
use hawkular_openshift_agent.Base.Map.{IsMap}
use hawkular_openshift_agent.Collector.{MetricDefinition}
use hawkular_openshift_agent.Storage.{
  MetricKey, metric_key, Client, key_in, store_definition, store_definitions, tenant_of,
  consume_definitions,
}
use hawkular_openshift_agent.Storage.Stored.{
  Server, Keeps, store_definition-Keeps, store_definition-other,
}

-- No definition of the list has this key.
abbrev pub AreOther : Str → MetricKey → List MetricDefinition → Type 0
AreOther tenant k = All (λ d. metric_key.beq (key_in tenant d) k ≡ false)

module _ {V : Type 0} (c : Client V) (server : Server c) where
  store_definitions-other :
      (tenant : Str) (mds : List MetricDefinition) (s : c.State) (k : MetricKey)
      → AreOther tenant k mds
      → server.stored (store_definitions c tenant s mds) k ≡ server.stored s k
  unfolding store_definitions
  store_definitions-other tenant [] s k h = refl
  store_definitions-other tenant (md ∷ mds) s k h =
      store_definitions-other tenant mds (store_definition c tenant s md) k h.1
      ∙ store_definition-other c server tenant s md k h.0

  store_definitions-Keeps :
      (tenant : Str) (before after : List MetricDefinition) (s : c.State) (md : MetricDefinition)
      → IsMap md.tags
      → AreOther tenant (key_in tenant md) after
      → Keeps
          (server.stored (store_definitions c tenant s (before ++ md ∷ after)) (key_in tenant md))
          md.tags
  unfolding store_definitions
  store_definitions-Keeps tenant [] after s md m h =
      rw
        (store_definitions-other tenant after (store_definition c tenant s md) (key_in tenant md) h)
        (store_definition-Keeps c server tenant s md m)
  store_definitions-Keeps tenant (b ∷ before) after s md m h =
      store_definitions-Keeps tenant before after (store_definition c tenant s b) md m h

  -- After a message of definitions the server keeps, for each metric of the message, exactly the
  -- tags of its last definition there: new ones are added, changed ones updated and those that are
  -- no longer in the definition deleted. All are kept under the tenant of the message's first
  -- definition, or the global one. The server is one that does what it is asked.
  pub consume_definitions-Keeps :
      (global : Str) (s : c.State) (first : MetricDefinition) (rest : List MetricDefinition)
      (before after : List MetricDefinition) (md : MetricDefinition)
      → first ∷ rest ≡ before ++ md ∷ after
      → IsMap md.tags
      → AreOther (tenant_of global first.tenant) (key_in (tenant_of global first.tenant) md) after
      → Keeps
          (server.stored
            (consume_definitions c global s (first ∷ rest))
            (key_in (tenant_of global first.tenant) md))
          md.tags
  unfolding consume_definitions
  consume_definitions-Keeps global s first rest before after md e m h =
      rw e (store_definitions-Keeps (tenant_of global first.tenant) before after s md m h)

  -- A message leaves every metric alone that none of its definitions is for.
  pub consume_definitions-other :
      (global : Str) (s : c.State) (first : MetricDefinition) (rest : List MetricDefinition)
      (k : MetricKey)
      → AreOther (tenant_of global first.tenant) k (first ∷ rest)
      → server.stored (consume_definitions c global s (first ∷ rest)) k ≡ server.stored s k
  unfolding consume_definitions
  consume_definitions-other global s first rest k h =
      store_definitions-other (tenant_of global first.tenant) (first ∷ rest) s k h
