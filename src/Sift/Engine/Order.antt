-- ===== src/Sift/Engine/Order.antt =====
-- The loop of `EnumerateDevices` of src/sift/engine.cc, when the keys of the nodes come in ascending
-- order.
use rocsift_glog_fork.Sift.Engine.{device_builders}
use rocsift_glog_fork.Common.{
  List, [], ◌∷◌, ◌++◌, get_elem?, ℕ, zero, suc, ◌+◌, ◌≤◌, Bool, true, false, some, ◌≡◌, refl, sym,
  ap, ◌∙◌, if◌then◌else◌, ◌==◌, arith, inl, inr, Option-cases, append-nil,
}
use rocsift_glog_fork.Sift.Engine.Builders.{put-Front}
use rocsift_glog_fork.Sift.Engine.Builders.{put-instances}
use rocsift_glog_fork.Sift.Engine.Builders.{put-ids}
use native.Mathlib.Nat.{zero-add}
use rocsift_glog_fork.Sift.Engine.Builders.{Front-mono}
use rocsift_glog_fork.Sift.Engine.{new_builder}
use rocsift_glog_fork.Sift.Engine.{find_builder}
use rocsift_glog_fork.Sift.Engine.Builders.{new_instance, put}
use rocsift_glog_fork.Sift.Device.{DeviceBuilder}
use rocsift_glog_fork.Sift.Device.{BuilderNode}
use rocsift_glog_fork.Sift.Engine.{add_node, device_key, enumerate_loop}
use rocsift_glog_fork.Sift.Engine.Builders.{Front}
use rocsift_glog_fork.Sift.Engine.Builders.{instances_of}
use rocsift_glog_fork.Sift.Engine.Builders.{ids_of}
use native.Mathlib.Nat.{add-zero}
use rocsift_glog_fork.Sift.Engine.{Enumeration}
use rocsift_glog_fork.Kfd.Field.{Properties, simd_count}

-- The numbers from `k` on.
abbrev pub from : ℕ → ℕ → List ℕ
from k zero = []
from k (suc n) = k ∷ from (suc k) n

pub from-snoc : (k n : ℕ) → from k (suc n) ≡ from k n ++ ((k + n) ∷ [])
from-snoc k zero = rw (add-zero) refl
from-snoc k (suc n) = ap (λ l. k ∷ l) (from-snoc (suc k) n ∙ ap (λ i. from (suc k) n ++ (i ∷ [])) e)
  where
    e : suc k + n ≡ k + suc n
    e = omega arith

pub get_elem?-from : (k n i : ℕ) {x : ℕ} → get_elem? (from k n) i ≡ some x → x ≡ k + i
get_elem?-from k zero i h = cc
get_elem?-from k (suc n) zero {x = x} h = let e : k ≡ x = cc in omega (arith, e)
get_elem?-from k (suc n) (suc i) h = omega (arith, get_elem?-from (suc k) n i h)

abbrev AscendStep : Bool → Type 0 → Type 0 → Type 0
AscendStep true A B = A
AscendStep false A B = B

-- The keys of the nodes with compute units ascend, from `k` on.
abbrev pub KeysAscend : ℕ → List Properties → Type 0
KeysAscend k [] = Unit
KeysAscend k (p ∷ ps) =
    AscendStep (p simd_count == 0) (KeysAscend k ps)
      ((k ≤ device_key p) × KeysAscend (device_key p) ps)

-- Partitions and devices are numbered in the order of the map.
pub record Numbered (k : ℕ) (e : Enumeration) : Type 0 where
  pub ids : ids_of e.builders ≡ from 0 e.global_partition_id
  pub instances : instances_of e.builders ≡ from 0 e.num_builders
  pub front : Front k e.builders

abbrev node_of : ℕ → Properties → Enumeration → BuilderNode
node_of i p e = record { kfd = i; props = p; global_partition_id = e.global_partition_id }

add_node-builders :
    (i : ℕ) (p : Properties) (e : Enumeration)
    → (add_node i p e).builders
      ≡ put (device_key p) (new_builder e.num_builders p) (node_of i p e) e.builders
unfolding add_node
add_node-builders i p e = elim (Option-cases (find_builder (device_key p) e.builders)) [
  | inl h ↦ rw (add_node, h) refl
  | inr (b, h) ↦ rw (add_node, h) refl
]

add_node-id :
    (i : ℕ) (p : Properties) (e : Enumeration)
    → (add_node i p e).global_partition_id ≡ suc e.global_partition_id
unfolding add_node
add_node-id i p e = elim (Option-cases (find_builder (device_key p) e.builders)) [
  | inl h ↦ rw (add_node, h) refl
  | inr (b, h) ↦ rw (add_node, h) refl
]

add_node-count :
    (i : ℕ) (p : Properties) (e : Enumeration)
    → from 0 e.num_builders
        ++ new_instance (new_builder e.num_builders p) (find_builder (device_key p) e.builders)
      ≡ from 0 (add_node i p e).num_builders
unfolding add_node
add_node-count i p e = elim (Option-cases (find_builder (device_key p) e.builders)) [
  | inl h ↦
      rw (add_node, h)
        (sym (
          from-snoc 0 e.num_builders
          ∙ ap (λ i. from 0 e.num_builders ++ (i ∷ [])) (zero-add e.num_builders)))
  | inr (b, h) ↦ rw (add_node, h) (append-nil (from 0 e.num_builders))
]

add_node-Numbered :
    (k i : ℕ) (p : Properties) (e : Enumeration)
    → k ≤ device_key p
    → Numbered k e
    → Numbered (device_key p) (add_node i p e)
add_node-Numbered k i p e l h = record {
  ids =
      ap ids_of (add_node-builders i p e)
      ∙ put-ids (device_key p) c (node_of i p e) e.builders refl front
      ∙ ap (λ l. l ++ (e.global_partition_id ∷ [])) h.ids
      ∙ sym (
          from-snoc 0 e.global_partition_id
          ∙ ap (λ j. from 0 e.global_partition_id ++ (j ∷ [])) (zero-add e.global_partition_id))
      ∙ ap (from 0) (sym (add_node-id i p e));
  instances =
      ap instances_of (add_node-builders i p e)
      ∙ put-instances (device_key p) c (node_of i p e) e.builders front
      ∙ ap (λ l. l ++ new_instance c (find_builder (device_key p) e.builders)) h.instances
      ∙ add_node-count i p e;
  front =
      rw (add_node-builders i p e) (put-Front (device_key p) c (node_of i p e) e.builders front);
}
  where
    c : DeviceBuilder
    c = new_builder e.num_builders p

    front : Front (device_key p) e.builders
    front = Front-mono k (device_key p) e.builders l h.front

node-Numbered :
    (b : Bool) (k i : ℕ) (p : Properties) (nodes : List Properties) (e : Enumeration)
    → AscendStep b (KeysAscend k nodes) ((k ≤ device_key p) × KeysAscend (device_key p) nodes)
    → Numbered k e
    → (m : ℕ) × KeysAscend m nodes × Numbered m (if b then e else add_node i p e)
node-Numbered true k i p nodes e a h = (k, a, h)
node-Numbered false k i p nodes e (l, a) h = (device_key p, a, add_node-Numbered k i p e l h)

enumerate_loop-Numbered :
    (k i : ℕ) (nodes : List Properties) (e : Enumeration)
    → KeysAscend k nodes
    → Numbered k e
    → (m : ℕ) × Numbered m (enumerate_loop i nodes e)
unfolding enumerate_loop
enumerate_loop-Numbered k i [] e a h = (k, h)
enumerate_loop-Numbered k i (p ∷ nodes) e a h =
    let (m, a2, h2) = node-Numbered (p simd_count == 0) k i p nodes e a h in
    enumerate_loop-Numbered m (suc i) nodes (if p simd_count == 0 then e else add_node i p e) a2 h2

-- The map that the devices are made of.
pub device_builders-numbered :
    (nodes : List Properties)
    → KeysAscend 0 nodes
    → (n : ℕ) × (m : ℕ) × (ids_of (device_builders nodes) ≡ from 0 n)
      × (instances_of (device_builders nodes) ≡ from 0 m)
device_builders-numbered nodes a =
    let start : Enumeration = record { builders = []; global_partition_id = 0; num_builders = 0 } in
    let r =
      enumerate_loop-Numbered 0 0 nodes start a
        (record { ids = refl; instances = refl; front = tt }) in
    (_, _, r.1.ids, r.1.instances)
