-- ===== src/Users/Memory.antt =====
-- Accounts in memory with the laws of the repositories: a function from tenants and ids, and one from
-- the ids of administrators.
use nest_auth.Prelude.{refl, ◌&&◌, Option, Text, text_eq, if◌then◌else◌}
use nest_auth.Users.{Account, with_mfa, mapped, Repositories}

pub record Directory : Type 0 where
  pub users : Text → Text → Option Account
  pub admins : Text → Option Account

abbrev pub directory : Repositories
directory = record {
  Users = Directory;
  find_user = λ u tenant id. u.users tenant id;
  update_user_mfa = λ u tenant id w. record u {
    users = λ tenant' id'.
        if text_eq tenant tenant' && text_eq id id'
        then mapped (with_mfa w) (u.users tenant' id')
        else u.users tenant' id';
  };
  find_admin = λ u id. u.admins id;
  update_admin_mfa = λ u id w. record u {
    admins = λ id'. if text_eq id id' then mapped (with_mfa w) (u.admins id') else u.admins id';
  };
  find_user-update_user_mfa = λ u tenant id w tenant' id'. refl;
  find_admin-update_user_mfa = λ u tenant id w id'. refl;
  find_admin-update_admin_mfa = λ u id w id'. refl;
  find_user-update_admin_mfa = λ u id w tenant' id'. refl;
}
