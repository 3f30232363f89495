-- ===== src/Sift/Engine/Builders.antt =====
-- The map of `EnumerateDevices` of src/sift/engine.cc, when the keys of the nodes come in ascending
-- order.
use rocsift_glog_fork.Common.{
  List, [], ◌∷◌, ◌++◌, map, ℕ, ◌≤◌, ◌<◌, true, false, Option, none, some, ◌≡◌, refl, sym, ap, ◌∙◌,
  ltb, ◌==◌, arith, ◌⊎◌, inl, inr, Bool-cases, append-nil, append_assoc, ltb→lt, ==_self,
}
use rocsift_glog_fork.Sift.Engine.{add_partition}
use rocsift_glog_fork.Sift.Engine.{set_builder}
use rocsift_glog_fork.Sift.Device.{BuilderNode}
use rocsift_glog_fork.Sift.Device.{DeviceBuilder}
use rocsift_glog_fork.Sift.Engine.{Builders, find_builder}

-- The IDs of the partitions in the order of the devices, and the instances of the devices.
abbrev pub ids_of : Builders → List ℕ
ids_of [] = []
ids_of ((k, b) ∷ bs) = map (λ n. n.global_partition_id) b.nodes ++ ids_of bs

abbrev pub instances_of : Builders → List ℕ
instances_of [] = []
instances_of ((k, b) ∷ bs) = b.instance_ ∷ instances_of bs

-- All keys are below `k`, but for the last, which may be `k`.
abbrev pub Front : ℕ → Builders → Type 0
Front k [] = Unit
Front k ((j, b) ∷ bs) = ((j < k) × Front k bs) ⊎ ((j ≡ k) × (bs ≡ []))

lt_or_eq : (k m : ℕ) → k ≤ m → (k < m) ⊎ (k ≡ m)
lt_or_eq k m h = elim (Bool-cases (ltb k m)) [
  | inl e ↦ inl (ltb→lt k m e)
  | inr e ↦ inr (ground arith)
]

pub Front-mono : (k m : ℕ) (bs : Builders) → k ≤ m → Front k bs → Front m bs
Front-mono k m [] l h = tt
Front-mono k m ((j, b) ∷ bs) l (inl (i, h)) = inl (omega arith, Front-mono k m bs l h)
Front-mono k m ((j, b) ∷ bs) l (inr (e, h)) = elim (lt_or_eq k m l) [
  | inl i ↦ inl (omega arith, rw h tt)
  | inr f ↦ inr (e ∙ f, h)
]

-- The builder at a key, or another one.
abbrev builder_or : DeviceBuilder → Option DeviceBuilder → DeviceBuilder
builder_or c none = c
builder_or c (some b) = b

-- The map after a node was added at a key.
abbrev pub put : ℕ → DeviceBuilder → BuilderNode → Builders → Builders
put k c n bs = set_builder k (add_partition n (builder_or c (find_builder k bs))) bs

set-below :
    (j k : ℕ) (b c : DeviceBuilder) (bs : Builders)
    → j < k
    → set_builder k c ((j, b) ∷ bs) ≡ (j, b) ∷ set_builder k c bs
unfolding set_builder
set-below j k b c bs h =
    let differ : (k == j) ≡ false = ground arith in
    let above : ltb k j ≡ false = ground arith in rw (set_builder, differ, above) refl

set-here :
    (k : ℕ) (b c : DeviceBuilder) (bs : Builders) → set_builder k c ((k, b) ∷ bs) ≡ (k, c) ∷ bs
unfolding set_builder
set-here k b c bs =
    let same : (k == k) ≡ true = ==_self k in
    let above : ltb k k ≡ false = ground arith in rw (set_builder, same, above) refl

pub find-below :
    (j k : ℕ) (b : DeviceBuilder) (bs : Builders)
    → j < k
    → find_builder k ((j, b) ∷ bs) ≡ find_builder k bs
unfolding find_builder
find-below j k b bs h =
    let differ : (k == j) ≡ false = ground arith in rw (find_builder, differ) refl

find-here : (k : ℕ) (b : DeviceBuilder) (bs : Builders) → find_builder k ((k, b) ∷ bs) ≡ some b
unfolding find_builder
find-here k b bs = let same : (k == k) ≡ true = ==_self k in rw (find_builder, same) refl

put-nil : (k : ℕ) (c : DeviceBuilder) (n : BuilderNode) → put k c n [] ≡ (k, add_partition n c) ∷ []
unfolding find_builder set_builder
put-nil k c n = refl

put-below :
    (j k : ℕ) (b c : DeviceBuilder) (n : BuilderNode) (bs : Builders)
    → j < k
    → put k c n ((j, b) ∷ bs) ≡ (j, b) ∷ put k c n bs
put-below j k b c n bs h =
    ap (λ o. set_builder k (add_partition n (builder_or c o)) ((j, b) ∷ bs)) (find-below j k b bs h)
    ∙ set-below j k b (add_partition n (builder_or c (find_builder k bs))) bs h

put-here :
    (j k : ℕ) (b c : DeviceBuilder) (n : BuilderNode) (bs : Builders)
    → j ≡ k
    → bs ≡ []
    → put k c n ((j, b) ∷ bs) ≡ (k, add_partition n b) ∷ []
put-here j k b c n bs e f =
    ap (λ i. put k c n ((i, b) ∷ bs)) e
    ∙ ap (λ o. set_builder k (add_partition n (builder_or c o)) ((k, b) ∷ bs)) (find-here k b bs)
    ∙ set-here k b (add_partition n b) bs
    ∙ ap (λ r. (k, add_partition n b) ∷ r) f

map_snoc :
    (ns : List BuilderNode) (n : BuilderNode)
    → map (λ n. n.global_partition_id) (ns ++ (n ∷ []))
      ≡ map (λ n. n.global_partition_id) ns ++ (n.global_partition_id ∷ [])
map_snoc [] n = refl
map_snoc (m ∷ ns) n = ap (λ l. m.global_partition_id ∷ l) (map_snoc ns n)

pub put-ids :
    (k : ℕ) (c : DeviceBuilder) (n : BuilderNode) (bs : Builders)
    → c.nodes ≡ []
    → Front k bs
    → ids_of (put k c n bs) ≡ ids_of bs ++ (n.global_partition_id ∷ [])
put-ids k c n [] e h =
    ap ids_of (put-nil k c n) ∙ ap (λ l. map (λ n. n.global_partition_id) (l ++ (n ∷ [])) ++ []) e
put-ids k c n ((j, b) ∷ bs) e (inl (i, h)) =
    ap ids_of (put-below j k b c n bs i)
    ∙ ap (λ l. map (λ n. n.global_partition_id) b.nodes ++ l) (put-ids k c n bs e h)
    ∙ sym (append_assoc (map (λ n. n.global_partition_id) b.nodes) (ids_of bs) _)
put-ids k c n ((j, b) ∷ bs) e (inr (f, h)) =
    ap ids_of (put-here j k b c n bs f h)
    ∙ append-nil _
    ∙ map_snoc b.nodes n
    ∙ ap (λ l. l ++ (n.global_partition_id ∷ []))
        (sym (append-nil (map (λ n. n.global_partition_id) b.nodes)))
    ∙ ap
        (λ r.
          (map (λ n. n.global_partition_id) b.nodes ++ ids_of r) ++ (n.global_partition_id ∷ []))
        (sym h)

pub put-Front :
    (k : ℕ) (c : DeviceBuilder) (n : BuilderNode) (bs : Builders)
    → Front k bs
    → Front k (put k c n bs)
put-Front k c n [] h = rw (put-nil k c n) (inr (refl, refl))
put-Front k c n ((j, b) ∷ bs) (inl (i, h)) =
    rw (put-below j k b c n bs i) (inl (i, put-Front k c n bs h))
put-Front k c n ((j, b) ∷ bs) (inr (f, h)) = rw (put-here j k b c n bs f h) (inr (refl, refl))

-- The instance of the new builder, where none was found.
abbrev pub new_instance : DeviceBuilder → Option DeviceBuilder → List ℕ
new_instance c none = c.instance_ ∷ []
new_instance c (some b) = []

instances-nil :
    (k : ℕ) (c : DeviceBuilder) (n : BuilderNode)
    → instances_of (put k c n []) ≡ new_instance c (find_builder k [])
unfolding find_builder set_builder
instances-nil k c n = refl

pub put-instances :
    (k : ℕ) (c : DeviceBuilder) (n : BuilderNode) (bs : Builders)
    → Front k bs
    → instances_of (put k c n bs) ≡ instances_of bs ++ new_instance c (find_builder k bs)
put-instances k c n [] h = instances-nil k c n
put-instances k c n ((j, b) ∷ bs) (inl (i, h)) =
    ap instances_of (put-below j k b c n bs i)
    ∙ ap (λ l. b.instance_ ∷ l) (put-instances k c n bs h)
    ∙ ap (λ o. b.instance_ ∷ instances_of bs ++ new_instance c o) (sym (find-below j k b bs i))
put-instances k c n ((j, b) ∷ bs) (inr (f, h)) =
    ap instances_of (put-here j k b c n bs f h)
    ∙ ap (λ r. b.instance_ ∷ (instances_of r ++ [])) (sym h)
    ∙ ap (λ o. b.instance_ ∷ (instances_of bs ++ new_instance c o)) (sym found)
  where
    found : find_builder k ((j, b) ∷ bs) ≡ some b
    found = ap (λ i. find_builder k ((i, b) ∷ bs)) f ∙ find-here k b bs
