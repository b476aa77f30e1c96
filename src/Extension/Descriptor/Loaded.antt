-- ===== src/Extension/Descriptor/Loaded.antt =====
-- What the descriptors that `discover_descriptors` returns hold.
use mathlib.Core.List.{Memᴰ}
use mathlib.Core.List.Memᴰ.{head, tail}
use Prim.Native.Nat.{Ordering}
use Prim.Native.Nat.Ordering.{lt, eq, gt}
use musts.Base.{
  ◌≡◌, ◌≢◌, refl, subst, true, false, inl, inr, Option, none, some, Option-cases, List, [], ◌∷◌,
  Bool, arith,
}
use musts.Base.Order.{nat_ord, list_ord}
use musts.Base.Text.{Text}
use musts.Base.Lists.{All}
use musts.Base.Map.{BTreeMap, insert}
use musts.Base.Result.{ok, Result-cases}
use musts.Extension.{Capability, ExtensionDescriptor}
use musts.Extension.Descriptor.{
  RawCapability, RawDescriptor, DescriptorLibraries, load_capability, load_capabilities,
  parsed_descriptor, parent_of, load_descriptor, load_all, insert_named, sort_named,
  discover_descriptors,
}
use musts.Extension.Descriptor.Commands.{IsUsable, load_capability-IsUsable, Sum-cases}

module _ (libraries : DescriptorLibraries) where
  All-insert :
      (raws : BTreeMap Text RawCapability) (k : Text) (v : Capability)
      (m : BTreeMap Text Capability)
      → IsUsable libraries raws (k, v)
      → All (IsUsable libraries raws) m
      → All (IsUsable libraries raws) (insert k v m)
  unfolding insert
  All-insert raws k v [] p a = (p, tt)
  All-insert raws k v ((j, w) ∷ m) p a =
      placed (list_ord.cmp k j) refl (All-insert raws k v m p a.1)
    where
      placed :
          (o : Ordering)
          → list_ord.cmp k j ≡ o
          → All (IsUsable libraries raws) (insert k v m)
          → All
              (IsUsable libraries raws)
              (elim o [ lt ↦ (k, v) ∷ (j, w) ∷ m | eq ↦ (j, v) ∷ m | gt ↦ (j, w) ∷ insert k v m ])
      placed lt e rest = (p, a)
      placed eq e rest =
          (subst (λ x. IsUsable libraries raws (x, v)) (list_ord.cmp_eq k j e) p, a.1)
      placed gt e rest = (a.0, rest)

  load_capabilities-IsUsable :
      (path root : Text) (declared raws : BTreeMap Text RawCapability)
      (out capabilities : BTreeMap Text Capability)
      → ((e : Text × RawCapability) → Memᴰ e raws → Memᴰ e declared)
      → All (IsUsable libraries declared) out
      → load_capabilities libraries path root raws out ≡ ok capabilities
      → All (IsUsable libraries declared) capabilities
  unfolding load_capabilities
  load_capabilities-IsUsable path root declared [] out capabilities m a h =
      let same : out ≡ capabilities = ground (arith, h) in
      subst (λ (x : BTreeMap Text Capability). All (IsUsable libraries declared) x) same a
  load_capabilities-IsUsable path root declared ((local, raw) ∷ raws) out capabilities m a h =
      elim (Result-cases (load_capability libraries path root local raw)) [
        | inr (x, e) ↦ absurd (ground (arith, e, h))
        | inl (capability, e) ↦
            load_capabilities-IsUsable path root declared raws (insert local capability out)
              capabilities (λ x i. m x (tail i))
              (All-insert declared local capability out
                (load_capability-IsUsable libraries path root local raw declared capability
                  (m (local, raw) (head refl)) e)
                a)
              (ground (arith, e, h))
      ]

  -- The descriptor is the file at the path: its bytes, its name, the folder that it stands in, and
  -- the capabilities that it declares.
  abbrev pub IsLoadedFrom : ExtensionDescriptor → Text × Text → Type 0
  IsLoadedFrom d e =
      (raw : RawDescriptor) × (libraries.read e.0 ≡ some d.descriptor_bytes)
      × (libraries.yaml_from_slice d.descriptor_bytes ≡ inr raw)
      × (d.root ≡ e.1)
      × (d.name ≡ raw.name)
      × All (IsUsable libraries raw.capabilities) d.capabilities

  -- the same, of one of the folders
  abbrev pub IsLoaded : List (Text × Text) → ExtensionDescriptor → Type 0
  IsLoaded dirs d = (e : Text × Text) × Memᴰ e dirs × IsLoadedFrom d e

  load_descriptor-IsLoadedFrom :
      (path dir : Text) (d : ExtensionDescriptor)
      → load_descriptor libraries path (some dir) ≡ ok d
      → IsLoadedFrom d (path, dir)
  unfolding load_descriptor parent_of parsed_descriptor
  load_descriptor-IsLoadedFrom path dir d h = elim (Option-cases (libraries.read path)) [
    | inl e ↦ absurd (ground (arith, e, h))
    | inr (bytes, e) ↦ elim (Sum-cases (libraries.yaml_from_slice bytes)) [
      | inl (x, f) ↦ absurd (ground (arith, e, f, h))
      | inr (raw, f) ↦
          elim (Result-cases (load_capabilities libraries path dir raw.capabilities [])) [
            | inr (x, i) ↦ absurd (ground (arith, e, f, i, h))
            | inl (capabilities, i) ↦
                let same : built bytes raw capabilities ≡ d = ground (arith, e, f, i, h) in
                subst (λ (x : ExtensionDescriptor). IsLoadedFrom x (path, dir)) same
                  (
                    raw,
                    e,
                    f,
                    refl,
                    refl,
                    load_capabilities-IsUsable path dir raw.capabilities raw.capabilities []
                        capabilities (λ x m. m) tt i,
                  )
          ]
    ]
  ]
    where
      built : Text → RawDescriptor → BTreeMap Text Capability → ExtensionDescriptor
      built bytes raw capabilities = record {
        root = dir;
        name = raw.name;
        version = raw.version;
        capabilities = capabilities;
        descriptor_bytes = bytes;
      }

  load_all-IsLoaded :
      (all dirs : List (Text × Text)) (ds : List ExtensionDescriptor)
      → ((e : Text × Text) → Memᴰ e dirs → Memᴰ e all)
      → load_all libraries dirs ≡ ok ds
      → All (IsLoaded all) ds
  unfolding load_all
  load_all-IsLoaded all [] ds m h =
      let same : Path (List ExtensionDescriptor) [] ds = ground (arith, h) in
      subst (λ (x : List ExtensionDescriptor). All (IsLoaded all) x) same tt
  load_all-IsLoaded all ((path, dir) ∷ dirs) ds m h =
      elim (Result-cases (load_descriptor libraries path (some dir))) [
        | inr (x, e) ↦ absurd (ground (arith, e, h))
        | inl (d, e) ↦ elim (Result-cases (load_all libraries dirs)) [
          | inr (x, f) ↦ absurd (ground (arith, e, f, h))
          | inl (rest, f) ↦
              let same : Path (List ExtensionDescriptor) (d ∷ rest) ds = ground (arith, e, f, h) in
              subst (λ (x : List ExtensionDescriptor). All (IsLoaded all) x) same
                (
                  (
                    (path, dir),
                    m (path, dir) (head refl),
                    load_descriptor-IsLoadedFrom path dir d e,
                  ),
                  load_all-IsLoaded all dirs rest (λ x i. m x (tail i)) f,
                )
        ]
      ]

  -- the names in their order
  abbrev Heads : ExtensionDescriptor → List ExtensionDescriptor → Type 0
  Heads d [] = Unit {0}
  Heads d (e ∷ es) = list_ord.cmp d.name e.name ≢ gt

  abbrev pub IsByName : List ExtensionDescriptor → Type 0
  IsByName [] = Unit {0}
  IsByName (d ∷ ds) = Heads d ds × IsByName ds

  abbrev Both : List (Text × Text) → List ExtensionDescriptor → Type 0
  Both dirs ds = All (IsLoaded dirs) ds × IsByName ds

  Heads-insert_named :
      (b d : ExtensionDescriptor) (ds : List ExtensionDescriptor)
      → list_ord.cmp b.name d.name ≢ gt
      → Heads b ds
      → Heads b (insert_named d ds)
  unfolding insert_named
  Heads-insert_named b d [] h k = h
  Heads-insert_named b d (e ∷ es) h k = placed (list_ord.cmp d.name e.name)
    where
      placed : (o : Ordering) → Heads b (elim o [ gt ↦ e ∷ insert_named d es | _ ↦ d ∷ e ∷ es ])
      placed lt = h
      placed eq = h
      placed gt = k

  insert_named-Both :
      (dirs : List (Text × Text)) (d : ExtensionDescriptor) (ds : List ExtensionDescriptor)
      → IsLoaded dirs d
      → Both dirs ds
      → Both dirs (insert_named d ds)
  unfolding insert_named
  insert_named-Both dirs d [] l b = ((l, tt), (tt, tt))
  insert_named-Both dirs d (e ∷ es) l b =
      placed (list_ord.cmp d.name e.name) refl (insert_named-Both dirs d es l (b.0.1, b.1.1))
        (Heads-insert_named e d es)
    where
      placed :
          (o : Ordering)
          → list_ord.cmp d.name e.name ≡ o
          → Both dirs (insert_named d es)
          → (list_ord.cmp e.name d.name ≢ gt → Heads e es → Heads e (insert_named d es))
          → Both dirs (elim o [ gt ↦ e ∷ insert_named d es | _ ↦ d ∷ e ∷ es ])
      placed lt p rest heads = ((l, b.0), ((λ q. cc (p, q)), b.1))
      placed eq p rest heads = ((l, b.0), ((λ q. cc (p, q)), b.1))
      placed gt p rest heads =
          ((b.0.0, rest.0), (heads (λ q. cc (list_ord.cmp_flip d.name e.name, p, q)) b.1.0, rest.1))

  sort_named-Both :
      (dirs : List (Text × Text)) (ds : List ExtensionDescriptor)
      → All (IsLoaded dirs) ds
      → Both dirs (sort_named ds)
  unfolding sort_named
  sort_named-Both dirs [] a = (tt, tt)
  sort_named-Both dirs (d ∷ ds) a =
      insert_named-Both dirs d (sort_named ds) a.0 (sort_named-Both dirs ds a.1)

  -- the folders, where they can be listed
  abbrev pub dirs_of : Option (List (Text × Text)) → List (Text × Text)
  dirs_of none = []
  dirs_of (some dirs) = dirs

  -- Where `discover_descriptors` succeeds, the descriptors stand in the order of their names. Each is
  -- read and parsed from the file of one of the listed folders, and each of its capabilities stands
  -- under a key that is not empty, and is one that the parsed file declares under that key. Each of
  -- the two commands of the capability has a program, so that taking the first argument cannot fail,
  -- and is the array that the file gives for it, or the result of splitting the text that the file
  -- gives for it, and then that text has no shell metacharacter.
  pub discover_descriptors-IsLoaded :
      (exists : Bool) (entries : Option (List (Text × Text))) (ds : List ExtensionDescriptor)
      → discover_descriptors libraries exists entries ≡ ok ds
      → All (IsLoaded (dirs_of entries)) ds × IsByName ds
  unfolding discover_descriptors
  discover_descriptors-IsLoaded false entries ds h =
      let same : Path (List ExtensionDescriptor) [] ds = ground (arith, h) in
      subst (λ (x : List ExtensionDescriptor). Both (dirs_of entries) x) same (tt, tt)
  discover_descriptors-IsLoaded true none ds h = absurd (ground (arith, h))
  discover_descriptors-IsLoaded true (some dirs) ds h =
      elim (Result-cases (load_all libraries dirs)) [
        | inr (x, f) ↦ absurd (ground (arith, f, h))
        | inl (out, f) ↦
            let same : sort_named out ≡ ds = ground (arith, f, h) in
            subst (λ (x : List ExtensionDescriptor). Both dirs x) same
              (sort_named-Both dirs out (load_all-IsLoaded dirs dirs out (λ e m. m) f))
      ]
