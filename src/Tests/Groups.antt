-- ===== src/Tests/Groups.antt =====
-- A group that is saved with other members.
use kvm_manager.Base.{
  String, ◌≡◌, refl, true, false, none, [], ◌∷◌, ◌==◌, any, member, if◌then◌else◌,
}
use kvm_manager.Access.Permissions.{unique_trimmed}
use kvm_manager.Access.Users.{User, UserGroup, Directory, has_role, has_user_id}
use kvm_manager.Access.Groups.{UserGroupInput, save_group_row, upsert_user_group, has_group_id}
use kvm_manager.Access.Groups.Members.{all_users, upsert_user_group_lem}

abbrev user : String → User
user id = record {
  id = id;
  username = id;
  email = "";
  password_hash = "h";
  display_name = id;
  role = "viewer";
  source = "local";
  disabled = false;
  last_login_at = none;
  created_at = 0;
  updated_at = 0;
}

abbrev group : String → UserGroup
group id = record {
  id = id;
  name = id;
  description = "";
  disabled = false;
  created_at = 0;
  updated_at = 0;
}

abbrev directory : Directory
directory = record {
  users = user "u1" ∷ user "u2" ∷ [];
  roles = [];
  user_roles = [];
  groups = group "g1" ∷ group "g2" ∷ [];
  group_members = ("g1", "u1") ∷ ("g2", "u1") ∷ [];
  group_roles = [];
}

abbrev input : UserGroupInput
input = record {
  name = "staff";
  description = "";
  disabled = false;
  member_ids = " u2 " ∷ "" ∷ "u2" ∷ [];
  role_keys = "nobody" ∷ [];
}

row_is_saved : (save_group_row 9 "g9" "g1" input directory).0 ≡ none
unfolding save_group_row has_group_id
row_is_saved = refl

members_are_users : all_users (unique_trimmed [] input.member_ids) directory.users ≡ true
unfolding all_users unique_trimmed kvm_manager.Text.trim_space has_user_id
members_are_users = refl

upsert_user_group_lem_example :
    let (error, d') = upsert_user_group 9 "g9" "g1" input directory in
    (error ≡ none)
    × ((g u : String)
        → any (has_role g u) d'.group_members ≡ (
            if g == "g1"
            then member u (unique_trimmed [] input.member_ids)
            else any (has_role g u) directory.group_members))
upsert_user_group_lem_example =
    upsert_user_group_lem 9 "g9" "g1" input directory row_is_saved members_are_users
