-- ===== src/Bolt/Memory.antt =====
-- The interface can be met: buckets in memory, as association lists.
use Prim.Native.String.{len}
use mathlib.Core.List.{Perm}
use mathlib.Core.List.Perm
use l1_modular_blockchain.Common.{
  String, ◌≡◌, refl, ◌≢◌, ◌≤◌, ◌<◌, true, ◌&&◌, Option, none, some, List, [], ◌∷◌, arith, ltb, leb,
  if◌then◌else◌, str_eq, str_eq→eq, str_eq_refl, map, inl, inr, Bool-cases,
}
use l1_modular_blockchain.Bolt.Cursor.{Entries, lookup, insert, AscendingFrom, insert-AscendingFrom}
use l1_modular_blockchain.Bolt.Interface.{Bolt}

-- A table is a list of entries with ascending keys.
abbrev Sorted : Type 0 → Type 0
Sorted V = (es : Entries V) × AscendingFrom 0 es

module _ {V : Type 0} where
  abbrev find_text : List (String × V) → String → Option V
  find_text [] k = none
  find_text ((j, v) ∷ d) k = if str_eq k j then some v else find_text d k

  abbrev store_text : List (String × V) → String → V → List (String × V)
  store_text [] k v = (k, v) ∷ []
  store_text ((j, w) ∷ d) k v = if str_eq k j then (j, v) ∷ d else (j, w) ∷ store_text d k v

  abbrev text_values : List (String × V) → List V
  text_values = map λ e. e.1

  pub find-store_text :
      (d : List (String × V)) (k : String) (v : V) → find_text (store_text d k v) k ≡ some v
  find-store_text [] k v = ground (arith, str_eq_refl k)
  find-store_text (e ∷ d) k v = ground (arith, find-store_text d k v)

  pub find-store_text_ne :
      (d : List (String × V)) (j k : String) (v : V)
      → j ≢ k
      → find_text (store_text d k v) j ≡ find_text d j
  find-store_text_ne [] j k v h = ground (arith, str_eq→eq j k)
  find-store_text_ne (e ∷ d) j k v h =
      ground (arith, find-store_text_ne d j k v h, str_eq→eq j e.0, str_eq→eq k e.0)

  pub text_values-new :
      (d : List (String × V)) (k : String) (v : V)
      → find_text d k ≡ none
      → Perm (text_values (store_text d k v)) (v ∷ text_values d)
  text_values-new [] k v h = Perm.refl _
  text_values-new ((j, w) ∷ d) k v h = elim (Bool-cases (str_eq k j)) [
    | inl hit ↦ ground arith
    | inr miss ↦
        rw miss (Perm.trans (Perm.cons w (text_values-new d k v (ground arith))) (Perm.swap v w _))
  ]

  pub text_values-old :
      (d : List (String × V)) (k : String) (u v : V)
      → find_text d k ≡ some u
      → Perm (u ∷ text_values (store_text d k v)) (v ∷ text_values d)
  text_values-old [] k u v h = cc
  text_values-old ((j, w) ∷ d) k u v h = elim (Bool-cases (str_eq k j)) [
    | inl hit ↦
        rw hit (
          Perm.trans (Perm.swap v u _)
            (Perm.cons v (ground (arith, Perm.refl (u ∷ text_values d)))))
    | inr miss ↦ rw miss (
        Perm.trans (Perm.swap w u _)
          (Perm.trans (Perm.cons w (text_values-old d k u v (ground arith))) (Perm.swap v w _)))
  ]

pub accepts_text :
    (s : String) → 0 < len s → len s ≤ 32768 → (ltb 0 (len s) && leb (len s) 32768) ≡ true
accepts_text s h k = ground arith

abbrev pub memory : Bolt
memory = record {
  Table = Sorted;
  no_rows = ([], tt);
  get = λ t k. lookup k t.0;
  put = λ t k v. (insert k v t.0, insert-AscendingFrom 0 k v t.0 (omega arith) t.1);
  cursor = λ t. t.0;
  cursor-no_rows = refl;
  cursor-put = λ t k v. refl;
  cursor-Ascending = λ t. t.1;
  get_lem = λ t k. refl;
  Dict = λ V. List (String × V);
  no_pairs = [];
  find = find_text;
  store = store_text;
  accepts = λ s. ltb 0 (len s) && leb (len s) 32768;
  accepts_lem = accepts_text;
  values = text_values;
  values-no_pairs = refl;
  find-no_pairs = λ k. refl;
  find-store_self = find-store_text;
  find-store_ne = find-store_text_ne;
  values-store_new = text_values-new;
  values-store_old = text_values-old;
}
