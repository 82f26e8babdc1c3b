-- ===== src/Auth/Users/Models.antt =====
-- modules/auth/src/infra/database/db/models.go: the rows of the tables beside users, which no query
-- of the service reads yet. `NullTime` is sql.NullTime.
use micro_services.Base.{String, ℤ}

module _ (NullTime : Type 0) where
  -- Which roles a user has.
  pub record UserRole : Type 0 where
    pub user_id : ℤ
    pub role_id : ℤ
    pub created_at : NullTime
    pub updated_at : NullTime

  pub record UserRoleType : Type 0 where
    pub id : ℤ
    pub role : String
    pub created_at : NullTime
    pub updated_at : NullTime

  -- Which scopes a user has.
  pub record UserScope : Type 0 where
    pub user_id : ℤ
    pub scope_id : ℤ
    pub created_at : NullTime
    pub updated_at : NullTime

  pub record UserScopeType : Type 0 where
    pub id : ℤ
    pub scope : String
    pub created_at : NullTime
    pub updated_at : NullTime
