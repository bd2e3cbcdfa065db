-- ===== src/GetParam/Tests.antt =====
-- statApp/src/getParam.c: values that fit and one that is cut.
use lin_stat.Base.{◌≡◌, refl, true, [], ◌∷◌, none, some, length, arith}
use lin_stat.Base.Text.{codes}
use lin_stat.Base.Buffer.{c_str}
use lin_stat.GetParam.{ParamRecord, truncated, copy_val, read_param, shown, copy_val_lem}

abbrev empty_record : ParamRecord
empty_record = record {
  param = none;
  link = codes "HOME";
  val = codes "????????";
  alarms = [];
  udf = true;
}

read_param_runs :
    c_str (read_param (λ p. none) (λ name. some (codes "/root/deep")) empty_record).val
    ≡ codes "/roo..."
unfolding read_param
read_param_runs = refl

copy_val_lem_example :
    (c_str (copy_val (codes "/root/deep") empty_record).val ≡ shown 8 (codes "/root/deep"))
    × (length (copy_val (codes "/root/deep") empty_record).val ≡ 8)
    × ((copy_val (codes "/root/deep") empty_record).alarms ≡ truncated ∷ [])
copy_val_lem_example = copy_val_lem (codes "/root/deep") empty_record (omega arith) (omega arith)
