-- ===== src/Store/Table.antt =====
-- A keyspace held in memory: a sorted association list with its proof.
use rsplayer.Prelude.{ℕ, refl, List, [], ltb, leb, filter, head?, last?, is_some}
use rsplayer.Store.{Keyspace, TextKeyspace}
use rsplayer.Store.Ordered
use rsplayer.Store.Texts
use rsplayer.Song.{Text}

abbrev Table : Type 0 → Type 0
Table V = (l : List (ℕ × V)) × Ordered.IsSorted l

abbrev pub table : (V : Type 0) → Keyspace V
table V = record {
  Store = Table V;
  iter = λ s. s.0;
  get = λ s k. Ordered.lookup k s.0;
  contains_key = λ s k. is_some (Ordered.lookup k s.0);
  first_key_value = λ s. head? s.0;
  last_key_value = λ s. last? s.0;
  range_after = λ s k. filter (λ e. ltb k e.0) s.0;
  range_from = λ s k. filter (λ e. leb k e.0) s.0;
  range_before = λ s k. filter (λ e. ltb e.0 k) s.0;
  insert = λ s k v. (Ordered.insert k v s.0, Ordered.insert-IsSorted k v s.0 s.1);
  remove = λ s k. (Ordered.remove k s.0, Ordered.remove-IsSorted k s.0 s.1);
  clear = λ s. ([], tt);
  iter-IsSorted = λ s. s.1;
  get_lem = λ s k. refl;
  contains_key_lem = λ s k. refl;
  first_lem = λ s. refl;
  last_lem = λ s. refl;
  range_after_lem = λ s k. refl;
  range_from_lem = λ s k. refl;
  range_before_lem = λ s k. refl;
  iter-insert = λ s k v. refl;
  iter-remove = λ s k. refl;
  iter-clear = λ s. refl;
}

abbrev TextTable : Type 0 → Type 0
TextTable V = (l : List (Text × V)) × Texts.IsSorted l

abbrev pub text_table : (V : Type 0) → TextKeyspace V
text_table V = record {
  Store = TextTable V;
  iter = λ s. s.0;
  get = λ s k. Texts.lookup k s.0;
  prefix = λ s p. Texts.with_prefix p s.0;
  insert = λ s k v. (Texts.insert k v s.0, Texts.insert-IsSorted k v s.0 s.1);
  remove = λ s k. (Texts.remove k s.0, Texts.remove-IsSorted k s.0 s.1);
  clear = λ s. ([], tt);
  iter-IsSorted = λ s. s.1;
  get_lem = λ s k. refl;
  prefix_lem = λ s p. refl;
  iter-insert = λ s k v. refl;
  iter-remove = λ s k. refl;
  iter-clear = λ s. refl;
}
