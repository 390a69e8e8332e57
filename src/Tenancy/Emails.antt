-- ===== src/Tenancy/Emails.antt =====
-- The index of the email addresses.
use trading_strands.Prelude.{
  ℕ, String, ◌≡◌, Bool, ◌||◌, Option, none, some, arith, if◌then◌else◌, eq_iff, eq_refl,
}
use trading_strands.Prelude.Dict.{put, has, get-put, get-remove}
use trading_strands.Tenancy.Store.{
  User, Tenants, ok, raised, email_already_in_use, write_failed, create_user, find_user_by_email,
}

-- the record that `create_user` makes
abbrev pub new_user : String → ℕ → String → String → Option String → User
new_user new_id now email name sub = record {
  user_id = new_id;
  email = email;
  cognito_sub = sub;
  display_name = name;
  display_timezone = "UTC";
  last_active_org_id = none;
  created_at = now;
  updated_at = now;
}

module _ (lower_strip : String → String) where
  -- Every call of `create_user`: an address that is in use, however it is written, is refused, and a
  -- write that fails is reported; in both cases every address is found or not as before. Otherwise the
  -- new user is given, and found under every way of writing the address that the store does not
  -- tell apart.
  pub create_user_outcome :
      (new_id : String) (now : ℕ) (fails : Bool) (email name : String) (sub : Option String)
      (t : Tenants) (same any : String)
      → lower_strip same ≡ lower_strip email
      → let (r, t') = create_user lower_strip new_id now fails email sub name t in
        let taken = has t.emails (lower_strip email) in
        let user = new_user new_id now email name sub in
        (r ≡ (
          if taken
          then raised email_already_in_use
          else if fails
          then raised write_failed
          else ok user))
        × (find_user_by_email lower_strip any (if taken || fails then t' else t)
            ≡ find_user_by_email lower_strip any t)
        × (find_user_by_email lower_strip same t'
            ≡ (if taken || fails then find_user_by_email lower_strip same t else some user))
  unfolding create_user find_user_by_email
  create_user_outcome new_id now fails email name sub t same any h =
      let k = lower_strip email in
      let user = new_user new_id now email name sub in
      let back = get-remove (put t.emails k new_id) k in
      let there = get-put t.emails k in
      (
        ground arith,
        ground (
          arith,
          back (lower_strip any),
          there (lower_strip any) new_id,
          eq_iff k (lower_strip any),
        ),
        ground (
          arith,
          h,
          back (lower_strip same),
          there (lower_strip same) new_id,
          get-put t.users new_id new_id user,
          eq_refl new_id,
          eq_refl k,
        ),
      )
