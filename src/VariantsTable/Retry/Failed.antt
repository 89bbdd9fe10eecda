-- ===== src/VariantsTable/Retry/Failed.antt =====
-- The error of a row after another try in front/src/components/VariantsTable.tsx.
use go_moda_mayor.Net.{Reply}
use go_moda_mayor.Prelude.{ℕ, suc, ◌≡◌, refl, true, some, ◌==◌, get_elem?, arith}
use go_moda_mayor.VariantsTable.{Variant, Table, id_or}
use go_moda_mayor.VariantsTable.Upload.{Propagated}
use go_moda_mayor.VariantsTable.Retry.{retry_row, retry_found, try_row, try_old, pass_try}

module _ {B : Type 0} where
  -- Another try for a row that the server has and whose file is to be uploaded: whatever becomes of
  -- the upload, no error is left beside the row.
  pub retry_row-silent :
      (idx n : ℕ) (v : Variant B) (file : B) (reply up : Reply (Variant B))
      (prop : Reply Propagated) (s : Table B)
      → get_elem? s.variants idx ≡ some v
      → id_or v.id ≡ some (suc n)
      → v.file ≡ some file
      → (retry_row idx reply up prop s).row_error idx ≡ ""
  unfolding retry_row retry_found try_row try_old pass_try
  retry_row-silent idx n v file reply up prop s listed known attached =
      let same : (idx == idx) ≡ true = ground arith in rw (listed, known, attached, same) refl
