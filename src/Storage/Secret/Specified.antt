-- ===== src/Storage/Secret/Specified.antt =====
-- storage/metrics_storage.go: how the specifier of a secret is read.
use hawkular_openshift_agent.Base.{
  Str, string_eq, ℕ, ◌==◌, true, false, ◌≡◌, inl, inr, refl, sym, ap, ◌∙◌, some, [], ◌∷◌, ◌++◌, All,
  In, arith,
}
use hawkular_openshift_agent.K8s.Secrets.{in_cutset, trim_left, secret}
use hawkular_openshift_agent.Storage.Secret.{split, chosen, specified}

abbrev pub Lacks : ℕ → Str → Type 0
Lacks sep = All (λ c. (c == sep) ≡ false)

split-none : (sep : ℕ) (s : Str) → Lacks sep s → split sep s ≡ s ∷ []
unfolding split
split-none sep [] h = refl
split-none sep (c ∷ s) h = rw (h.0, split-none sep s h.1) refl

split-first : (sep : ℕ) (s t : Str) → Lacks sep s → split sep (s ++ sep ∷ t) ≡ s ∷ split sep t
unfolding split
split-first sep [] t h = let same : (sep == sep) ≡ true = ground arith in rw same refl
split-first sep (c ∷ s) t h = rw (h.0, split-first sep s t h.1) refl

in_cutset_lem : (c : ℕ) (cutset : Str) → In c cutset → in_cutset c cutset ≡ true
unfolding in_cutset
in_cutset_lem c [] i = elim i [ ]
in_cutset_lem c (d ∷ cutset) (inl e) = let same : (c == d) ≡ true = ground arith in rw same refl
in_cutset_lem c (d ∷ cutset) (inr i) = ground (arith, in_cutset_lem c cutset i)

trim_left-cut :
    (c : ℕ) (s cutset : Str)
    → in_cutset c cutset ≡ true
    → trim_left (c ∷ s) cutset ≡ trim_left s cutset
unfolding trim_left
trim_left-cut c s cutset h = rw h refl

trim_left-kept :
    (c : ℕ) (s cutset : Str) → in_cutset c cutset ≡ false → trim_left (c ∷ s) cutset ≡ c ∷ s
unfolding trim_left
trim_left-kept c s cutset h = rw h refl

trim_left-secret : (s : Str) → trim_left (secret ++ s) secret ≡ trim_left s secret
unfolding trim_left in_cutset
trim_left-secret s = refl

-- A specifier of a name and a key, of which the name has no letter in front that the word
-- `secret:` has, is for that key of that secret of the agent's own namespace.
pub specified-own :
    (ns name key : Str) (c : ℕ)
    → in_cutset c secret ≡ false
    → Lacks b'/' (c ∷ name)
    → Lacks b'/' key
    → specified ns (secret ++ (c ∷ name) ++ b'/' ∷ key) ≡ some (ns, c ∷ name, key)
unfolding specified chosen
specified-own ns name key c keeps h k =
    let trimmed : trim_left (secret ++ (c ∷ name) ++ b'/' ∷ key) secret ≡ (c ∷ name) ++ b'/' ∷ key =
      trim_left-secret ((c ∷ name) ++ b'/' ∷ key)
      ∙ trim_left-kept c (name ++ b'/' ∷ key) secret keeps in
    let halves : split b'/' ((c ∷ name) ++ b'/' ∷ key) ≡ (c ∷ name) ∷ key ∷ [] =
      split-first b'/' (c ∷ name) key h ∙ ap (λ ps. (c ∷ name) ∷ ps) (split-none b'/' key k) in
    ap (λ v. chosen ns (split b'/' v)) trimmed ∙ ap (chosen ns) halves

-- A letter behind the word `secret:` that is itself one of that word is lost: the specifier is read
-- as if the letter were not there, so that a name or a namespace that begins with it is not found.
pub specified-strays :
    (ns : Str) (c : ℕ) (s : Str)
    → In c secret
    → specified ns (secret ++ c ∷ s) ≡ specified ns (secret ++ s)
unfolding specified
specified-strays ns c s i =
    ap (λ v. chosen ns (split b'/' v))
      (trim_left-secret (c ∷ s)
        ∙ trim_left-cut c s secret (in_cutset_lem c secret i)
        ∙ sym (trim_left-secret s))
