-- ===== src/Content/Files.antt =====
-- A file that was created is found, and listed for its user.
use audio_tool_api.Prelude.{
  Option-cases, inl, inr, some, Bytes, ℕ, ◌≡◌, ap, ◌∙◌, Bool, true, false, not, ◌&&◌, none, List,
  [], ◌∷◌, ◌++◌, map, ◌==◌, if◌then◌else◌, bytes_eq, arith,
}
use audio_tool_api.Prelude.Dict.{bytes_eq_refl}
use mathlib.Core.List.{map-append}
use audio_tool_api.Models.{first}
use audio_tool_api.Models.Rows.{first-append_last}
use audio_tool_api.Content.{
  Fresh, FileRow, FileModel, select, select-append, file_create, file_by_guid, get_files_for_user,
  listed_file,
}

-- The row that the insertion adds.
abbrev pub file_row : Fresh → ℕ → FileModel → FileRow
file_row fresh now f = record {
  id = fresh.id;
  guid = fresh.guid;
  name = f.name;
  data_column = f.contents;
  size = f.size;
  created = now;
  user_id = f.user_id;
  sample_rate = f.sample_rate;
  is_deleted = fresh.is_deleted;
}

file_create-row :
    (fresh : Fresh) (now : ℕ) (files : List FileRow) (f : FileModel)
    → first (λ r. r.id == fresh.id) files ≡ none
    → file_create fresh now (files, f)
      ≡ ((files ++ file_row fresh now f ∷ [], record f { id = fresh.id; guid = fresh.guid }), none)
unfolding file_create
file_create-row fresh now files f n =
    ground (arith, first-append_last (λ r. r.id == fresh.id) files (file_row fresh now f) n)

-- A file that is created with a new number and a new guid: the creation succeeds, and a lookup by
-- that guid, with the data, finds the file's number, size, data, sample rate and user; the name
-- stays what it was in the model that the lookup fills.
pub file_create-file_by_guid :
    (fresh : Fresh) (now : ℕ) (files : List FileRow) (f g : FileModel)
    → first (λ r. r.id == fresh.id) files ≡ none
    → first (λ r. bytes_eq r.guid fresh.guid) files ≡ none
    → ((file_create fresh now (files, f)).1 ≡ none)
      × (file_by_guid (file_create fresh now (files, f)).0.0 fresh.guid true g
          ≡ (record f { id = fresh.id; guid = fresh.guid; name = g.name }, none))
unfolding file_by_guid
file_create-file_by_guid fresh now files f g n m =
    let made = file_create-row fresh now files f n in
    let last = first-append_last (λ r. bytes_eq r.guid fresh.guid) files (file_row fresh now f) m in
    (
      ap (λ x. x.1) made,
      ap (λ x. file_by_guid x.0.0 fresh.guid true g) made
          ∙ ground (arith, last, bytes_eq_refl fresh.guid),
    )

select_row :
    (fresh : Fresh) (now : ℕ) (f : FileModel) (user_id : ℕ)
    → fresh.is_deleted ≡ false
    → map listed_file
        (select (λ r. r.user_id == user_id && not r.is_deleted) (file_row fresh now f ∷ []))
      ≡ (if f.user_id == user_id
          then record f { id = fresh.id; guid = fresh.guid; contents = [] } ∷ []
          else [])
unfolding select
select_row fresh now f user_id d = ground arith

-- If new rows are not deleted, a file that is created with a new number stands at the end of its
-- user's list, behind the files that were listed before, and another user's list stays the same.
pub file_create-get_files_for_user :
    (fresh : Fresh) (now : ℕ) (files : List FileRow) (f : FileModel) (user_id : ℕ)
    → first (λ r. r.id == fresh.id) files ≡ none
    → fresh.is_deleted ≡ false
    → get_files_for_user (file_create fresh now (files, f)).0.0 user_id
      ≡ get_files_for_user files user_id
        ++ (if f.user_id == user_id
            then record f { id = fresh.id; guid = fresh.guid; contents = [] } ∷ []
            else [])
unfolding get_files_for_user
file_create-get_files_for_user fresh now files f user_id n d =
    let p : FileRow → Bool = λ r. r.user_id == user_id && not r.is_deleted in
    ap (λ x. get_files_for_user x.0.0 user_id) (file_create-row fresh now files f n)
    ∙ ap (map listed_file) (select-append p files (file_row fresh now f ∷ []))
    ∙ map-append listed_file (select p files) (select p (file_row fresh now f ∷ []))
    ∙ ap (◌++◌ (get_files_for_user files user_id)) (select_row fresh now f user_id d)

first-append {ℓ} :
    {A : Type ℓ} (p : A → Bool) (xs ys : List A) (a : A)
    → first p xs ≡ some a
    → first p (xs ++ ys) ≡ some a
unfolding first
first-append p [] ys a e = absurd (cc)
first-append p (x ∷ xs) ys a e = ground (arith, first-append p xs ys a)

-- Files that come behind do not change what a lookup finds.
pub file_by_guid-append :
    (files more : List FileRow) (guid : Bytes) (with_data : Bool) (f m : FileModel)
    → file_by_guid files guid with_data f ≡ (m, none)
    → file_by_guid (files ++ more) guid with_data f ≡ (m, none)
unfolding file_by_guid
file_by_guid-append files more guid with_data f m e =
    elim (Option-cases (first (λ r. bytes_eq r.guid guid) files)) [
      | inl k ↦ absurd (cc (rw (k, file_by_guid) at e))
      | inr (r, k) ↦
          rw (first-append (λ x. bytes_eq x.guid guid) files more r k, file_by_guid)
            (rw (k, file_by_guid) at e)
    ]
