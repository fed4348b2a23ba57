-- ===== src/Api/Names.antt =====
-- types.NamespacedName, used as client.ObjectKey by every package.
use vault_secrets_operator.Base.{String, ◌≡◌, ◌↔◌, true, ◌&&◌, arith, Key, ◌==◌, text_key, eq_iff}

pub record ObjectKey : Type 0 where
  pub namespace : String
  pub name : String

pub ObjectKey-same_iff :
    (a b : ObjectKey) → ((a.namespace == b.namespace && a.name == b.name) ≡ true) ↔ (a ≡ b)
ObjectKey-same_iff a b = ground (arith, eq_iff a.namespace b.namespace, eq_iff a.name b.name)

instance unfoldable pub object_key : Key ObjectKey
object_key = record {
  same = λ a b. a.namespace == b.namespace && a.name == b.name;
  same_iff = ObjectKey-same_iff;
}
