-- ===== src/Store/Registered.antt =====
-- What the store lists is what it can create.
use Prim.Native.String.{String}
use text.Mathlib.Text.{◌==◌}
use text.Mathlib.TextEquality.{eq_iff}
use text.Mathlib.TextPositions.{eq_refl}
use hardware_floral_codec.Common.{
  ◌≡◌, refl, sym, ap, ◌∙◌, false, Option, none, some, List, [], ◌∷◌, ◌++◌, All, Bool-cases,
  Option-cases, inl, inr, arith, append_assoc, append-nil,
}
use hardware_floral_codec.CodecSpec.{CodecSpec, Backend, v4l2_m2m, vaapi, get_codec_specs}
use hardware_floral_codec.Store.{
  ComponentEntry, Traits, FloralCodecStore, find, emplace, traits_of, register, register_all,
  empty_store, new_store,
}

-- A listed component is found under its name: as the entry of the codec that it lists, with the
-- device that was found for it.
pub record IsBacked (f : CodecSpec → Option String) (store : FloralCodecStore) (t : Traits)
    : Type 0 where
  pub entry : ComponentEntry
  pub there : find t.name store.components ≡ some entry
  pub lists : traits_of entry.spec ≡ t
  pub on_device : f entry.spec ≡ some entry.device_path

-- The names of the codecs differ.
pub Distinct : List CodecSpec → Type 0
Distinct [] = Unit {0}
Distinct (s ∷ specs) =
    All (λ (t : CodecSpec). (s.component_name == t.component_name) ≡ false) specs × Distinct specs

get_codec_specs-Distinct : (b : Backend) → Distinct (get_codec_specs b)
unfolding get_codec_specs Distinct
get_codec_specs-Distinct v4l2_m2m = ground arith
get_codec_specs-Distinct vaapi = ground arith

-- The codecs that a device was found for.
pub supported : (CodecSpec → Option String) → List CodecSpec → List Traits
supported f [] = []
supported f (s ∷ specs) = elim (f s) [
  | none ↦ supported f specs
  | some path ↦ traits_of s ∷ supported f specs
]

find-here :
    (name : String) (e : ComponentEntry) (entries : List (String × ComponentEntry))
    → find name ((name, e) ∷ entries) ≡ some e
unfolding find
find-here name e entries = rw (eq_refl name) refl

find-there :
    (key name : String) (e : ComponentEntry) (entries : List (String × ComponentEntry))
    → (key == name) ≡ false
    → find name ((key, e) ∷ entries) ≡ find name entries
unfolding find
find-there key name e entries h = rw h refl

emplace_new :
    (name : String) (e : ComponentEntry) (entries : List (String × ComponentEntry))
    → find name entries ≡ none
    → emplace name e entries ≡ (name, e) ∷ entries
unfolding emplace
emplace_new name e entries h = rw (h, emplace) refl

All-append :
    {A : Type 0} (P : A → Type 0) (xs : List A) (a : A) → All P xs → P a → All P (xs ++ (a ∷ []))
All-append P [] a h p = (p, tt)
All-append P (x ∷ xs) a h p = (h.0, All-append P xs a h.1 p)

All-map :
    {A : Type 0} (P Q : A → Type 0) (xs : List A) → ((a : A) → P a → Q a) → All P xs → All Q xs
All-map P Q [] f h = tt
All-map P Q (x ∷ xs) f h = (f x h.0, All-map P Q xs f h.1)

ne_key :
    (key name : String) (e : ComponentEntry) (entries : List (String × ComponentEntry))
    → find key entries ≡ none
    → find name entries ≡ some e
    → (key == name) ≡ false
ne_key key name e entries h q = elim (Bool-cases (key == name)) [
  | inr other ↦ other
  | inl same ↦ cc ((eq_iff key name).0 same, h, q)
]

module _ (f : CodecSpec → Option String) where
  -- The store behind a codec that a device was found for.
  abbrev with_codec : CodecSpec → String → FloralCodecStore → FloralCodecStore
  with_codec s path store = record {
    components = (s.component_name, record { spec = s; device_path = path }) ∷ store.components;
    traits = store.traits ++ (traits_of s ∷ []);
  }

  register_new :
      (s : CodecSpec) (path : String) (store : FloralCodecStore)
      → find s.component_name store.components ≡ none
      → register s (some path) store ≡ with_codec s path store
  unfolding register
  register_new s path store h =
      rw (emplace_new s.component_name (record { spec = s; device_path = path }) store.components h)
        refl

  with_codec-IsBacked :
      (s : CodecSpec) (path : String) (store : FloralCodecStore)
      → find s.component_name store.components ≡ none
      → f s ≡ some path
      → All (IsBacked f store) store.traits
      → All (IsBacked f (with_codec s path store)) (with_codec s path store).traits
  unfolding traits_of
  with_codec-IsBacked s path store h q b =
      All-append (IsBacked f (with_codec s path store)) store.traits (traits_of s)
        (All-map (IsBacked f store) (IsBacked f (with_codec s path store)) store.traits
          (λ t old. record {
            entry = old.entry;
            there =
                find-there s.component_name t.name _ store.components
                  (ne_key s.component_name t.name old.entry store.components h old.there)
                ∙ old.there;
            lists = old.lists;
            on_device = old.on_device;
          })
          b)
        (record {
          entry = record { spec = s; device_path = path };
          there = find-here s.component_name _ store.components;
          lists = refl;
          on_device = q;
        })

  with_codec-fresh :
      (s : CodecSpec) (path : String) (store : FloralCodecStore) (specs : List CodecSpec)
      → All (λ (t : CodecSpec). (s.component_name == t.component_name) ≡ false) specs
      → All (λ (t : CodecSpec). find t.component_name store.components ≡ none) specs
      → All
          (λ (t : CodecSpec). find t.component_name (with_codec s path store).components ≡ none)
          specs
  with_codec-fresh s path store [] d h = tt
  with_codec-fresh s path store (t ∷ specs) d h = (
    find-there s.component_name t.component_name _ store.components d.0 ∙ h.0,
    with_codec-fresh s path store specs d.1 h.1,
  )

  register_all-none :
      (s : CodecSpec) (specs : List CodecSpec) (store : FloralCodecStore)
      → f s ≡ none
      → register_all f (s ∷ specs) store ≡ register_all f specs store
  unfolding register_all register
  register_all-none s specs store q =
      ap (λ (o : Option String). register_all f specs (register s o store)) q

  register_all-some :
      (s : CodecSpec) (specs : List CodecSpec) (path : String) (store : FloralCodecStore)
      → f s ≡ some path
      → register_all f (s ∷ specs) store ≡ register_all f specs (register s (some path) store)
  unfolding register_all
  register_all-some s specs path store q =
      ap (λ (o : Option String). register_all f specs (register s o store)) q

  supported-none :
      (s : CodecSpec) (specs : List CodecSpec)
      → f s ≡ none
      → supported f (s ∷ specs) ≡ supported f specs
  unfolding supported
  supported-none s specs q = rw (q, supported) refl

  supported-some :
      (s : CodecSpec) (specs : List CodecSpec) (path : String)
      → f s ≡ some path
      → supported f (s ∷ specs) ≡ traits_of s ∷ supported f specs
  unfolding supported
  supported-some s specs path q = rw (q, supported) refl

  register_all-IsBacked :
      (specs : List CodecSpec) (store : FloralCodecStore)
      → Distinct specs
      → All (λ (t : CodecSpec). find t.component_name store.components ≡ none) specs
      → All (IsBacked f store) store.traits
      → All (IsBacked f (register_all f specs store)) (register_all f specs store).traits
  unfolding Distinct
  register_all-IsBacked [] store d h b = unfold register_all in b
  register_all-IsBacked (s ∷ specs) store d h b = elim (Option-cases (f s)) [
    | inl q ↦ rw (register_all-none s specs store q) (register_all-IsBacked specs store d.1 h.1 b)
    | inr (path, q) ↦
        rw (register_all-some s specs path store q, register_new s path store h.0)
          (register_all-IsBacked specs (with_codec s path store) d.1
            (with_codec-fresh s path store specs d.0 h.1)
            (with_codec-IsBacked s path store h.0 q b))
  ]

  register_all-traits :
      (specs : List CodecSpec) (store : FloralCodecStore)
      → (register_all f specs store).traits ≡ store.traits ++ supported f specs
  unfolding register_all register supported
  register_all-traits [] store = sym (append-nil store.traits)
  register_all-traits (s ∷ specs) store = elim (Option-cases (f s)) [
    | inl q ↦
        rw (register_all-none s specs store q, supported-none s specs q)
          (register_all-traits specs store)
    | inr (path, q) ↦
        rw (register_all-some s specs path store q, supported-some s specs path q)
          (register_all-traits specs (register s (some path) store)
            ∙ append_assoc store.traits (traits_of s ∷ []) (supported f specs))
  ]

fresh_store :
    (specs : List CodecSpec) → All (λ (t : CodecSpec). find t.component_name [] ≡ none) specs
unfolding find
fresh_store [] = tt
fresh_store (s ∷ specs) = (refl, fresh_store specs)

-- On either backend, whatever devices are found, each component that the store lists is found
-- under its name, as the entry of the codec that the listing describes and with the device that
-- was found for that codec.
pub new_store-IsBacked :
    (b : Backend) (f : CodecSpec → Option String)
    → All
        (IsBacked f (new_store (some f) (get_codec_specs b)))
        (new_store (some f) (get_codec_specs b)).traits
unfolding new_store
new_store-IsBacked b f =
    register_all-IsBacked f (get_codec_specs b) empty_store (get_codec_specs-Distinct b)
      (fresh_store (get_codec_specs b)) tt

-- The store lists the codecs of the table that a device is found for, in the order of the table,
-- and no others.
pub new_store-supported :
    (specs : List CodecSpec) (f : CodecSpec → Option String)
    → (new_store (some f) specs).traits ≡ supported f specs
unfolding new_store
new_store-supported specs f = register_all-traits f specs empty_store
