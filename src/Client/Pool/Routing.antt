-- ===== src/Client/Pool/Routing.antt =====
-- A URL goes to the first target whose selector it fits.
use nodejs_basics.Prelude.{
  String, false, Option, none, some, List, [], ◌∷◌, ◌++◌, ◌≡◌, ◌≢◌, ◌⊎◌, arith, inl, inr, refl, ap,
  ◌∙◌, All, string_key, lookup, insert, lookup-insert, lookup-insert_self, Bool-cases, Option-cases,
}
use nodejs_basics.Prelude.Texts.{Text}
use nodejs_basics.Client.Selector.{matches_selector, extract_base_url, parts_of}
use nodejs_basics.Client.Selector.Matching.{Fits, matches_selector_iff}
use nodejs_basics.Client.Pool.{Target, Pool, clients_of, new_pool, resolve_in, resolve_target}

-- A name has a client.
abbrev pub HasClient : List (String × Text) → String → Type 0
HasClient clients name = (client : Text) × (lookup name clients ≡ some client)

insert-HasClient :
    (clients : List (String × Text)) (name new : String) (base_url : Text)
    → HasClient clients name
    → HasClient (insert new base_url clients) name
insert-HasClient clients name new base_url (client, there) =
    elim (Bool-cases (string_key.beq new name)) [
      | inl hit ↦ (base_url, lookup-insert new name base_url clients ∙ rw hit refl)
      | inr miss ↦ (client, lookup-insert new name base_url clients ∙ rw miss there)
    ]

clients_of-keeps :
    (targets : List Target) (clients made : List (String × Text)) (name : String)
    → clients_of targets clients ≡ some made
    → HasClient clients name
    → HasClient made name
unfolding clients_of
clients_of-keeps [] clients made name q (client, there) = (client, cc)
clients_of-keeps (t ∷ targets) clients made name q h =
    elim (Option-cases (extract_base_url t.selector)) [
      | inl bad ↦ let no_pool : none ≡ some made = rw bad at q in absurd (cc)
      | inr (base_url, good) ↦
          clients_of-keeps targets (insert t.name base_url clients) made name (rw good at q)
            (insert-HasClient clients name t.name base_url h)
    ]

clients_of-all :
    (targets : List Target) (clients made : List (String × Text))
    → clients_of targets clients ≡ some made
    → All (λ t. HasClient made t.name) targets
unfolding clients_of
clients_of-all [] clients made q = tt
clients_of-all (t ∷ targets) clients made q = elim (Option-cases (extract_base_url t.selector)) [
  | inl bad ↦ let no_pool : none ≡ some made = rw bad at q in absurd (cc)
  | inr (base_url, good) ↦
      let rest = rw good at q in
      (
        clients_of-keeps targets (insert t.name base_url clients) made t.name rest
            (base_url, lookup-insert_self t.name base_url clients),
        clients_of-all targets (insert t.name base_url clients) made rest,
      )
]

-- The first of the targets that fits is found, with what the clients have under its name.
abbrev FoundFit : List (String × Text) → List Target → Text → Option (String × Text) → Type 0
FoundFit clients targets url none = All (λ t. matches_selector url t.selector ≡ false) targets
FoundFit clients targets url (some (name, client)) =
    (before : List Target) × (t : Target) × (after : List Target) × (targets
      ≡ before ++ (t ∷ after))
    × (All (λ u. matches_selector url u.selector ≡ false) before)
    × Fits (parts_of t.selector) url
    × (name ≡ t.name)
    × (lookup t.name clients ≡ some client)

later_fit :
    (clients : List (String × Text)) (t : Target) (targets : List Target) (url : Text)
    (o : Option (String × Text))
    → matches_selector url t.selector ≡ false
    → FoundFit clients targets url o
    → FoundFit clients (t ∷ targets) url o
later_fit clients t targets url none miss h = (miss, h)
later_fit clients t targets url (some (name, client)) miss
      (before, u, after, q, none_before, fits, named, there) =
    (t ∷ before, u, after, ap (λ l. t ∷ l) q, (miss, none_before), fits, named, there)

resolve_in-FoundFit :
    (clients : List (String × Text)) (targets : List Target) (url : Text)
    → All (λ t. HasClient clients t.name) targets
    → FoundFit clients targets url (resolve_in clients targets url)
unfolding resolve_in
resolve_in-FoundFit clients [] url h = tt
resolve_in-FoundFit clients (t ∷ targets) url ((client, there), h) =
    elim (Bool-cases (matches_selector url t.selector)) [
      | inl hit ↦
          rw (hit, there)
            ([], t, targets, refl, tt, (matches_selector_iff url t.selector).0 hit, refl, there)
      | inr miss ↦ rw miss (
          later_fit clients t targets url (resolve_in clients targets url) miss
            (resolve_in-FoundFit clients targets url h))
    ]

-- The base URL is that of the last target of the name.
abbrev pub IsLastBase : (name : String) (base_url : Text) → List Target → Type 0
IsLastBase name base_url targets =
    (before : List Target) × (u : Target) × (after : List Target) × (targets
      ≡ before ++ (u ∷ after))
    × (u.name ≡ name)
    × All (λ v. v.name ≢ name) after
    × (extract_base_url u.selector ≡ some base_url)

later_base :
    (name : String) (base_url : Text) (t : Target) (targets : List Target)
    → IsLastBase name base_url targets
    → IsLastBase name base_url (t ∷ targets)
later_base name base_url t targets (before, u, after, q, named, none_later, base) =
    (t ∷ before, u, after, ap (λ l. t ∷ l) q, named, none_later, base)

-- What the loop keeps under a name comes from the name's last target, or was there before.
clients_of-IsLastBase :
    (name : String) (base_url : Text) (targets : List Target) (clients made : List (String × Text))
    → clients_of targets clients ≡ some made
    → lookup name made ≡ some base_url
    → IsLastBase name base_url targets
      ⊎ (All (λ v. v.name ≢ name) targets × (lookup name clients ≡ some base_url))
unfolding clients_of
clients_of-IsLastBase name base_url [] clients made q there =
    let same : made ≡ clients = cc in inr (tt, rw same at there)
clients_of-IsLastBase name base_url (t ∷ targets) clients made q there =
    elim (Option-cases (extract_base_url t.selector)) [
      | inl bad ↦ let no_pool : none ≡ some made = rw bad at q in absurd (cc)
      | inr (own, good) ↦
          elim (clients_of-IsLastBase name base_url targets (insert t.name own clients) made
            (rw good at q) there) [
              | inl last ↦ inl (later_base name base_url t targets last)
              | inr (none_later, kept) ↦ elim (Bool-cases (string_key.beq t.name name)) [
                | inl hit ↦
                    let set : some own ≡ some base_url = rw (lookup-insert, hit) at kept in
                    inl (
                      [],
                      t,
                      targets,
                      refl,
                      (string_key.beq_iff t.name name).0 hit,
                      none_later,
                      good ∙ set,
                    )
                | inr miss ↦ inr (
                  (λ e. ground (arith, (string_key.beq_iff t.name name).1 e, miss), none_later),
                  rw (lookup-insert, miss) at kept,
                )
              ]
            ]
    ]

-- The first configured target that fits is the one, or none fits and there is none; the client is that
-- of the last configured target of its name.
abbrev pub FirstFit : List Target → Text → Option (String × Text) → Type 0
FirstFit targets url none = All (λ t. matches_selector url t.selector ≡ false) targets
FirstFit targets url (some (name, client)) =
    (before : List Target) × (t : Target) × (after : List Target) × (targets
      ≡ before ++ (t ∷ after))
    × (All (λ u. matches_selector url u.selector ≡ false) before)
    × Fits (parts_of t.selector) url
    × (name ≡ t.name)
    × IsLastBase name client targets

FoundFit-FirstFit :
    (made : List (String × Text)) (targets : List Target) (url : Text) (o : Option (String × Text))
    → clients_of targets [] ≡ some made
    → FoundFit made targets url o
    → FirstFit targets url o
unfolding lookup
FoundFit-FirstFit made targets url none q h = h
FoundFit-FirstFit made targets url (some (name, client)) q
      (before, t, after, split, none_before, fits, named, there) =
    elim (clients_of-IsLastBase name client targets [] made q (rw named there)) [
      | inl last ↦ (before, t, after, split, none_before, fits, named, last)
      | inr (none_later, bad) ↦ absurd (cc)
    ]

-- Once a pool is made, every URL is routed to the first configured target in whose selector it fits,
-- under that target's name, and to none exactly if it fits in no selector. The client that it gets
-- is one for the base URL of the selector of the last configured target of that name: the target's own,
-- where the names are distinct.
pub resolve_target-FirstFit :
    (targets : List Target) (p : Pool) (url : Text)
    → new_pool targets ≡ some p
    → FirstFit targets url (resolve_target p url)
unfolding new_pool resolve_target
resolve_target-FirstFit targets p url q = elim (Option-cases (clients_of targets [])) [
  | inl bad ↦ let no_pool : none ≡ some p = rw bad at q in absurd (cc)
  | inr (made, good) ↦
      let same = rw good at q in
      let all : p.clients ≡ made = cc in
      let selectors : p.selectors ≡ targets = cc in
      rw (all, selectors)
        (FoundFit-FirstFit made targets url (resolve_in made targets url) good
          (resolve_in-FoundFit made targets url (clients_of-all targets [] made good)))
]
