-- ===== src/Access.antt =====
-- src/services/access.rs, `ViewerPermissions` of src/native.rs, and `edit_lease` of
-- src/services/media.rs: who may do what to the library.
use curator_rs.Prelude.{Bool, true, false, not, ◌||◌, Option, some, none, if◌then◌else◌}

pub data Role : Type 0 where
  host server viewer : Role

pub data Actor : Type 0 where
  local_owner remote_viewer : Actor

pub record ViewerPermissions : Type 0 where
  pub library_read : Bool
  pub playback : Bool
  pub discovery : Bool
  pub library_edit : Bool
  pub session_control : Bool

-- What an older peer, which names no permission, is granted.
abbrev pub default_permissions : ViewerPermissions
default_permissions = record {
  library_read = true;
  playback = true;
  discovery = true;
  library_edit = false;
  session_control = false;
}

abbrev pub full_permissions : ViewerPermissions
full_permissions = record {
  library_read = true;
  playback = true;
  discovery = true;
  library_edit = true;
  session_control = true;
}

pub record Caller : Type 0 where
  pub role : Role
  pub permissions : ViewerPermissions

abbrev pub host_caller : Caller
host_caller = record { role = host; permissions = full_permissions }

abbrev pub server_caller : Caller
server_caller = record { role = server; permissions = full_permissions }

abbrev pub viewer_caller : ViewerPermissions → Caller
viewer_caller permissions = record { role = viewer; permissions = permissions }

-- `Caller::for_peer`: of the peer's address only its loopback test matters.
unfoldable pub for_peer : Option Bool → ViewerPermissions → Caller
for_peer (some false) permissions = viewer_caller permissions
for_peer _ permissions = host_caller

abbrev is_viewer_role : Role → Bool
is_viewer_role viewer = true
is_viewer_role _ = false

unfoldable pub is_viewer : Caller → Bool
is_viewer c = is_viewer_role c.role

unfoldable pub can_edit_library : Caller → Bool
can_edit_library c = not (is_viewer c) || c.permissions.library_edit

unfoldable pub can_stream_media : Caller → Bool
can_stream_media c = not (is_viewer c) || c.permissions.playback

unfoldable pub can_read_library : Caller → Bool
can_read_library c = not (is_viewer c) || c.permissions.library_read

unfoldable pub can_use_discovery : Caller → Bool
can_use_discovery c = not (is_viewer c) || c.permissions.discovery

unfoldable pub can_control_sessions : Caller → Bool
can_control_sessions c = not (is_viewer c) || c.permissions.session_control

abbrev actor_of : Role → Actor
actor_of viewer = remote_viewer
actor_of _ = local_owner

-- `Caller::actor` and `Actor::caller`
unfoldable pub actor : Caller → Actor
actor c = actor_of c.role

unfoldable pub caller : Actor → ViewerPermissions → Caller
caller local_owner permissions = host_caller
caller remote_viewer permissions = viewer_caller permissions

-- What the rest of the process says while a caller asks to edit: whether this edition owns the
-- library, whether it shuts down before and after the lease, and whether maintenance grants one.
pub record Gate : Type 0 where
  pub owns_library : Bool
  pub is_shutting_down : Bool
  pub has_lease : Bool
  pub is_shutting_down_later : Bool

pub data Refusal : Type 0 where
  forbidden shutting_down maintenance : Refusal

unfoldable pub edit_lease : Gate → Caller → Option Refusal
edit_lease g c =
    if not (can_edit_library c) || not g.owns_library
    then some forbidden
    else if g.is_shutting_down
    then some shutting_down
    else if not g.has_lease
    then some maintenance
    else if g.is_shutting_down_later
    then some shutting_down
    else none
