-- ===== src/EmbeddedScripts/Tasks/Laws.antt =====
-- scripts/check_no_embedded_scripts.py: the mappings that `_tasks` yields.
use ansible_platform.Prelude.{
  In, here, there, In-split, In-left, In-right, String, ◌≡◌, ◌↔◌, ◌≢◌, ◌∙◌, inl, inr, ap, subst,
  true, some, List, [], ◌∷◌, contains, arith, String-discrete,
}
use ansible_platform.Prelude.Yaml.{
  Yaml, Yamls, Fields, other, number, text, list, dict, nil, cons, end, field, lookup,
}
use ansible_platform.Prelude.Dict
use ansible_platform.Prelude.Dict.{Dict}
use ansible_platform.EmbeddedScripts.Tasks.{
  structure, tasks_at, gather, tasks, tasks_items, tasks_item, tasks_fields,
}

-- The mapping is an item of the list, or a task of what stands under a key of STRUCTURE in an item.
mutual
  pub data IsTask (t : Fields) : Yaml → Type 0 where
    in_list : {vs : Yamls} → IsItemTask t vs → IsTask t (list vs)

  pub data IsItemTask (t : Fields) : Yamls → Type 0 where
    itself : {vs : Yamls} → IsItemTask t (cons (dict t) vs)
    under :
        {fs : Fields} {vs : Yamls} (k : String) (v : Yaml)
        → contains structure k ≡ true
        → lookup fs k ≡ some v
        → IsTask t v
        → IsItemTask t (cons (dict fs) vs)
    later : {v : Yaml} {vs : Yamls} → IsItemTask t vs → IsItemTask t (cons v vs)

In-gather :
    (t : Fields) (keys : List String) (parts : Dict (List Fields))
    → In t (gather keys parts)
    → (k : String) × (contains keys k ≡ true) × In t (tasks_at parts k)
unfolding gather
In-gather t [] parts h = elim h [ ]
In-gather t (k ∷ keys) parts h = elim (In-split t (tasks_at parts k) (gather keys parts) h) [
  | inl l ↦ (k, ground arith, l)
  | inr r ↦ let (j, m, i) = In-gather t keys parts r in (j, ground (arith, m), i)
]

gather-In :
    (t : Fields) (keys : List String) (parts : Dict (List Fields)) (k : String)
    → contains keys k ≡ true
    → In t (tasks_at parts k)
    → In t (gather keys parts)
unfolding gather
gather-In t [] parts k m h = cc
gather-In t (j ∷ keys) parts k m h = elim (String-discrete k j) [
  | yes p ↦
      In-left t (tasks_at parts j) (gather keys parts)
        (subst (λ (x : String). In t (tasks_at parts x)) p h)
  | no q ↦
      In-right t (tasks_at parts j) (gather keys parts) (gather-In t keys parts k (ground arith) h)
]

-- The tasks under a key are those of the value that the mapping has for it.
tasks_at-lookup :
    (fs : Fields) (k : String) (v : Yaml)
    → lookup fs k ≡ some v
    → tasks_at (tasks_fields fs) k ≡ tasks v
unfolding tasks lookup Dict.get
tasks_at-lookup end k v h = cc
tasks_at-lookup (field j w fs) k v h = ground (arith, tasks_at-lookup fs k v, ap tasks)

at-head :
    (t : Fields) (j k : String) (ts : List Fields) (parts : Dict (List Fields))
    → j ≡ k
    → In t (tasks_at ((j, ts) ∷ parts) k)
    → In t ts
unfolding Dict.get
at-head t j k ts parts p = subst (In t) (ground (arith, p))

at-tail :
    (t : Fields) (j k : String) (ts : List Fields) (parts : Dict (List Fields))
    → j ≢ k
    → In t (tasks_at ((j, ts) ∷ parts) k)
    → In t (tasks_at parts k)
unfolding Dict.get
at-tail t j k ts parts q = subst (In t) (ground (arith, q))

lookup-head : (j k : String) (v : Yaml) (fs : Fields) → j ≡ k → lookup (field j v fs) k ≡ some v
unfolding lookup
lookup-head j k v fs p = ground arith

lookup-tail :
    (j k : String) (v : Yaml) (fs : Fields) → j ≢ k → lookup (field j v fs) k ≡ lookup fs k
unfolding lookup
lookup-tail j k v fs q = ground arith

mutual
  unfolding tasks

  tasks_sound : (t : Fields) (v : Yaml) → In t (tasks v) → IsTask t v
  tasks_sound t other h = elim h [ ]
  tasks_sound t number h = elim h [ ]
  tasks_sound t (text s) h = elim h [ ]
  tasks_sound t (dict fs) h = elim h [ ]
  tasks_sound t (list vs) h = in_list (items_sound t vs h)

  items_sound : (t : Fields) (vs : Yamls) → In t (tasks_items vs) → IsItemTask t vs
  items_sound t nil h = elim h [ ]
  items_sound t (cons v vs) h = elim (In-split t (tasks_item v) (tasks_items vs) h) [
    | inl l ↦ item_sound t v vs l
    | inr r ↦ later (items_sound t vs r)
  ]

  item_sound : (t : Fields) (v : Yaml) (vs : Yamls) → In t (tasks_item v) → IsItemTask t (cons v vs)
  item_sound t other vs h = elim h [ ]
  item_sound t number vs h = elim h [ ]
  item_sound t (text s) vs h = elim h [ ]
  item_sound t (list ws) vs h = elim h [ ]
  item_sound t (dict fs) vs here = itself
  item_sound t (dict fs) vs (there h) =
      let (k, m, i) = In-gather t structure (tasks_fields fs) h in
      let (v, l, d) = fields_sound t fs k i in under k v m l d

  fields_sound :
      (t : Fields) (fs : Fields) (k : String)
      → In t (tasks_at (tasks_fields fs) k)
      → (v : Yaml) × (lookup fs k ≡ some v) × IsTask t v
  fields_sound t end k h = elim h [ ]
  fields_sound t (field j v fs) k h = elim (String-discrete j k) [
    | yes p ↦
        (v, lookup-head j k v fs p, tasks_sound t v (at-head t j k (tasks v) (tasks_fields fs) p h))
    | no q ↦
        let (w, l, d) = fields_sound t fs k (at-tail t j k (tasks v) (tasks_fields fs) q h) in
        (w, lookup-tail j k v fs q ∙ l, d)
  ]

mutual
  unfolding tasks

  tasks_complete : (t : Fields) (v : Yaml) → IsTask t v → In t (tasks v)
  tasks_complete t other h = elim h [ ]
  tasks_complete t number h = elim h [ ]
  tasks_complete t (text s) h = elim h [ ]
  tasks_complete t (dict fs) h = elim h [ ]
  tasks_complete t (list vs) (in_list h) = items_complete t vs h

  items_complete : (t : Fields) (vs : Yamls) → IsItemTask t vs → In t (tasks_items vs)
  items_complete t nil h = elim h [ ]
  items_complete t (cons (dict s) vs) itself = here
  items_complete t (cons (dict fs) vs) (under k v m l h) = there (
      In-left t (gather structure (tasks_fields fs)) (tasks_items vs) (
        gather-In t structure (tasks_fields fs) k m
          (rw (tasks_at-lookup fs k v l) (tasks_complete t v h))))
  items_complete t (cons v vs) (later h) =
      In-right t (tasks_item v) (tasks_items vs) (items_complete t vs h)

-- A mapping is yielded exactly when it is an item of a list of tasks: of the document itself, or of
-- what stands under a key of STRUCTURE in such an item, at any depth.
pub tasks_exact : (t : Fields) (v : Yaml) → In t (tasks v) ↔ IsTask t v
tasks_exact t v = (tasks_sound t v, tasks_complete t v)
