-- ===== src/Llm/Local/Fresh.antt =====
-- A source that has been used answers as a new one.
use computecloud_node.Prelude.{
  ℕ, ◌≡◌, refl, ◌∙◌, sym, ap, String, true, Option, none, some, List, arith, inl, inr, Bool-cases,
}
use computecloud_node.Prelude.Equality.{lookup, string_eq, lookup-insert, ◌≟◌}
use computecloud_node.Python.{
  Result, ok, raise, key_error, type_error, ◌>>=◌, Value, null, str, bool, int, float, arr, obj,
  Fields, empty,
}
use computecloud_node.Python.Dict.{get}
use computecloud_node.Llm.Hub.{Library, single_name, index_name, single_index, keys_of}
use computecloud_node.Llm.Local.{
  LocalSource, local_source, opened_bytes, local_keep, local_unless, local_safe_open,
  local_set_index, index_opened, index_file, local_index_by, local_index_unless, local_ensure_index,
  local_listed, local_list_keys, local_tensor_opened, local_tensor_at, local_tensor_indexed,
  local_get_tensor,
}

module _ {W H T : Type 0} (lib : Library W H T) (dir : String → Option (List ℕ)) where
  -- What the directory says: its files, its index, its keys and its tensors.
  abbrev pub file_at : String → Result H
  file_at filename = opened_bytes lib dir (dir filename)

  abbrev pub index_of_single : Result H → Result Fields
  index_of_single (raise exc) = raise exc
  index_of_single (ok handle) = ok (single_index lib (lib.keys handle) empty)

  abbrev pub index_by : Option (List ℕ) → Result Fields
  index_by (some bytes) = index_of_single (file_at (single_name lib))
  index_by none = index_file lib dir (dir (index_name lib))

  abbrev pub directory_index : Result Fields
  directory_index = index_by (dir (single_name lib))

  abbrev pub tensor_at : String → Value → Result T
  tensor_at key null = raise key_error
  tensor_at key (str filename) = file_at filename >>= (λ handle. lib.get_tensor handle key)
  tensor_at key other = raise type_error

  abbrev pub directory_tensor : String → Result T
  directory_tensor key = directory_index >>= (λ index. tensor_at key (get key index))

  -- What a source remembers is what the directory says.
  pub record IsFaithful (s : LocalSource H) : Type 0 where
    pub files :
        (filename : String) (handle : H)
        → lookup filename s.opened ≡ some handle
        → file_at filename ≡ ok handle
    pub indexed : (index : Fields) → s.index ≡ some index → directory_index ≡ ok index
    pub keyed :
        (keys : List String) (index : Fields)
        → s.all_keys ≡ some keys
        → directory_index ≡ ok index
        → keys ≡ keys_of lib index

  -- An answer that is the right one, from a source that is faithful after it.
  abbrev pub Answers : {A : Type 0} → Result A → Result A × LocalSource H → Type 0
  Answers expected (answer, s) = (answer ≡ expected) × IsFaithful s

  some_same : {A : Type 0} (a b : A) → ◌≡◌ {A = Option A} (some a) (some b) → a ≡ b
  some_same a b e = ground (arith, e)

  inserted_file :
      (filename j : String) (handle h : H)
      → file_at filename ≡ ok handle
      → (j ≟ filename) ≡ true
      → ◌≡◌ {A = Option H} (some handle) (some h)
      → file_at j ≡ ok h
  inserted_file filename j handle h e here value =
      let same : j ≡ filename = ground (arith, here) in
      rw same (e ∙ ap (λ x. ok x) (some_same handle h value))

  local_keep-Answers :
      (filename : String) (read : Result H) (s : LocalSource H)
      → file_at filename ≡ read
      → IsFaithful s
      → Answers read (local_keep lib dir filename read s)
  local_keep-Answers filename (raise exc) s e faithful = (refl, faithful)
  local_keep-Answers filename (ok handle) s e faithful = (
    refl,
    record {
      files = λ j h found.
          let found' = sym (lookup-insert j filename handle s.opened) ∙ found in
          elim (Bool-cases (j ≟ filename)) [
            | inl here ↦ inserted_file filename j handle h e here (rw here at found')
            | inr apart ↦ faithful.files j h (rw apart at found')
          ];
      indexed = faithful.indexed;
      keyed = faithful.keyed;
    },
  )

  local_unless-Answers :
      (filename : String) (opened : Option H) (s : LocalSource H)
      → lookup filename s.opened ≡ opened
      → IsFaithful s
      → Answers (file_at filename) (local_unless lib dir filename opened s)
  local_unless-Answers filename (some handle) s e faithful =
      (sym (faithful.files filename handle e), faithful)
  local_unless-Answers filename none s e faithful =
      local_keep-Answers filename (file_at filename) s refl faithful

  local_safe_open-Answers :
      (filename : String) (s : LocalSource H)
      → IsFaithful s
      → Answers (file_at filename) (local_safe_open lib dir filename s)
  unfolding local_safe_open
  local_safe_open-Answers filename s faithful =
      local_unless-Answers filename (lookup filename s.opened) s refl faithful

  local_set_index-Answers :
      (read : Result Fields) (s : LocalSource H)
      → directory_index ≡ read
      → IsFaithful s
      → Answers read (local_set_index lib dir read s)
  local_set_index-Answers (raise exc) s e faithful = (refl, faithful)
  local_set_index-Answers (ok index) s e faithful = (
    refl,
    record {
      files = faithful.files;
      indexed = λ i found. e ∙ ap (λ x. ok x) (some_same index i found);
      keyed = faithful.keyed;
    },
  )

  index_opened-Answers :
      (p : Result H × LocalSource H) (read : Result H)
      → directory_index ≡ index_of_single read
      → Answers read p
      → Answers (index_of_single read) (index_opened lib dir p)
  index_opened-Answers (raise exc, s) read e (same, faithful) = (ap index_of_single same, faithful)
  index_opened-Answers (ok handle, s) read e (same, faithful) =
      let found = ap index_of_single same in
      (
        found,
        (local_set_index-Answers (ok (single_index lib (lib.keys handle) empty)) s (e ∙ sym found)
            faithful).1,
      )

  local_index_by-Answers :
      (bytes : Option (List ℕ)) (s : LocalSource H)
      → dir (single_name lib) ≡ bytes
      → IsFaithful s
      → Answers directory_index (local_index_by lib dir bytes s)
  local_index_by-Answers none s e faithful =
      let read : directory_index ≡ index_file lib dir (dir (index_name lib)) = ap index_by e in
      let (same, kept) =
        local_set_index-Answers (index_file lib dir (dir (index_name lib))) s read faithful in
      (same ∙ sym read, kept)
  local_index_by-Answers (some bytes) s e faithful =
      let read : directory_index ≡ index_of_single (file_at (single_name lib)) = ap index_by e in
      let (same, kept) =
        index_opened-Answers (local_safe_open lib dir (single_name lib) s)
          (file_at (single_name lib)) read (local_safe_open-Answers (single_name lib) s faithful) in
      (same ∙ sym read, kept)

  local_index_unless-Answers :
      (index : Option Fields) (s : LocalSource H)
      → s.index ≡ index
      → IsFaithful s
      → Answers directory_index (local_index_unless lib dir index s)
  local_index_unless-Answers (some index) s e faithful = (sym (faithful.indexed index e), faithful)
  local_index_unless-Answers none s e faithful =
      local_index_by-Answers (dir (single_name lib)) s refl faithful

  local_ensure_index-Answers :
      (s : LocalSource H) → IsFaithful s → Answers directory_index (local_ensure_index lib dir s)
  unfolding local_ensure_index
  local_ensure_index-Answers s faithful = local_index_unless-Answers s.index s refl faithful

  local_tensor_opened-Answers :
      (key : String) (read : Result H) (p : Result H × LocalSource H)
      → Answers read p
      → Answers (read >>= (λ handle. lib.get_tensor handle key)) (local_tensor_opened lib dir key p)
  local_tensor_opened-Answers key read (raise exc, s) (same, faithful) =
      (ap (λ r. r >>= (λ handle. lib.get_tensor handle key)) same, faithful)
  local_tensor_opened-Answers key read (ok handle, s) (same, faithful) =
      (ap (λ r. r >>= (λ handle. lib.get_tensor handle key)) same, faithful)

  local_tensor_at-Answers :
      (key : String) (value : Value) (s : LocalSource H)
      → IsFaithful s
      → Answers (tensor_at key value) (local_tensor_at lib dir key value s)
  local_tensor_at-Answers key null s faithful = (refl, faithful)
  local_tensor_at-Answers key (str filename) s faithful =
      local_tensor_opened-Answers key (file_at filename) _
        (local_safe_open-Answers filename s faithful)
  local_tensor_at-Answers key (bool b) s faithful = (refl, faithful)
  local_tensor_at-Answers key (int z) s faithful = (refl, faithful)
  local_tensor_at-Answers key (float bits) s faithful = (refl, faithful)
  local_tensor_at-Answers key (arr xs) s faithful = (refl, faithful)
  local_tensor_at-Answers key (obj d) s faithful = (refl, faithful)

  local_tensor_indexed-Answers :
      (key : String) (read : Result Fields) (p : Result Fields × LocalSource H)
      → Answers read p
      → Answers
          (read >>= (λ index. tensor_at key (get key index)))
          (local_tensor_indexed lib dir key p)
  local_tensor_indexed-Answers key read (raise exc, s) (same, faithful) =
      (ap (λ r. r >>= (λ index. tensor_at key (get key index))) same, faithful)
  local_tensor_indexed-Answers key read (ok index, s) (same, faithful) =
      let (answer, kept) = local_tensor_at-Answers key (get key index) s faithful in
      (answer ∙ ap (λ r. r >>= (λ index. tensor_at key (get key index))) same, kept)

  abbrev pub directory_keys : Result (List String)
  directory_keys = directory_index >>= (λ index. ok (keys_of lib index))

  ok_same : (a b : Fields) → ◌≡◌ {A = Result Fields} (ok a) (ok b) → a ≡ b
  ok_same a b e = ground (arith, e)

  local_listed-Answers :
      (before : LocalSource H) (all_keys : Option (List String)) (p : Result Fields × LocalSource H)
      → IsFaithful before
      → before.all_keys ≡ all_keys
      → Answers directory_index p
      → Answers directory_keys (local_listed lib dir all_keys p)
  local_listed-Answers before all_keys (raise exc, s) faithful e (same, kept) =
      (ap (λ r. r >>= (λ index. ok (keys_of lib index))) same, kept)
  local_listed-Answers before (some keys) (ok index, s) faithful e (same, kept) = (
    ap (λ k. ok k) (faithful.keyed keys index e (sym same))
        ∙ ap (λ r. r >>= (λ index. ok (keys_of lib index))) same,
    kept,
  )
  local_listed-Answers before none (ok index, s) faithful e (same, kept) = (
    ap (λ r. r >>= (λ index. ok (keys_of lib index))) same,
    record {
      files = kept.files;
      indexed = kept.indexed;
      keyed = λ keys i found read.
          ground (arith, found) ∙ ap (λ d. keys_of lib d) (ok_same index i (same ∙ read));
    },
  )

  local_list_keys-Answers :
      (s : LocalSource H) → IsFaithful s → Answers directory_keys (local_list_keys lib dir s)
  unfolding local_list_keys
  local_list_keys-Answers s faithful =
      local_listed-Answers s s.all_keys _ faithful refl (local_ensure_index-Answers s faithful)

  local_get_tensor-Answers :
      (key : String) (s : LocalSource H)
      → IsFaithful s
      → Answers (directory_tensor key) (local_get_tensor lib dir key s)
  unfolding local_get_tensor
  local_get_tensor-Answers key s faithful =
      local_tensor_indexed-Answers key directory_index _ (local_ensure_index-Answers s faithful)

  -- A source of a directory that remembers only what the directory says answers `list_keys` and
  -- `get_tensor` with what the directory says, as a new one does: the keys or the tensor, or the exception
  -- for a missing index, key or file. It goes on to remember only that.
  pub local_list_keys-local_get_tensor :
      (key : String) (s : LocalSource H)
      → IsFaithful s
      → Answers directory_keys (local_list_keys lib dir s)
        × Answers (directory_tensor key) (local_get_tensor lib dir key s)
  local_list_keys-local_get_tensor key s faithful =
      (local_list_keys-Answers s faithful, local_get_tensor-Answers key s faithful)

  -- A new source remembers nothing.
  pub local_source-IsFaithful : IsFaithful local_source
  unfolding local_source lookup
  local_source-IsFaithful = record {
    files = λ filename handle found. absurd (cc found);
    indexed = λ index found. absurd (cc found);
    keyed = λ keys index found same. absurd (cc found);
  }
