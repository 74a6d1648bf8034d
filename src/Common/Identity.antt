-- ===== src/Common/Identity.antt =====
-- ferrite-common/src/identity.rs: the identity of a caller, roles and permissions.
use ferrite.Prelude.{ℕ, Bool, true, false, List}

-- The 32 bytes of a public key.
pub record Identity : Type 0 where
  pub bytes : List ℕ

pub data Permission : Type 0 where
  connect create_table select insert update delete execute admin : Permission

pub record Role : Type 0 where
  pub name : List ℕ
  pub permissions : List Permission

-- The derived `PartialEq`.
abbrev pub same_permission : Permission → Permission → Bool
same_permission connect connect = true
same_permission create_table create_table = true
same_permission select select = true
same_permission insert insert = true
same_permission update update = true
same_permission delete delete = true
same_permission execute execute = true
same_permission admin admin = true
same_permission _ _ = false
