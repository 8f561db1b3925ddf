-- ===== src/Network/Structs.antt =====
-- The data that Network.js keeps: the packets' structures, class User and class Player.
use starfall.Base.{ℕ, List, [], ◌==◌, Bool, false}
use starfall.Network.Runtime.{Text, Floats, Vector3, Quaternion, vector3_zero, quaternion_identity}
use starfall.Network.Buffer.{Buffer}

pub record LoginStruct : Type 0 where
  pub state : ℕ  -- 0 not logged in, 1 logging in, 2 logged in, 3 logging out
  pub userid : ℕ
  pub usertype : ℕ
  pub username : Text
  pub password : Text

abbrev pub new_login : LoginStruct
new_login = record { state = 0; userid = 0; usertype = 0; username = []; password = [] }

pub record GuiStruct : Type 0 where
  pub connection_status : Bool
  pub message : Text
  pub user_field : Text
  pub password_field : Text

pub record TransformStruct (F : Type 0) : Type 0 where
  pub action : ℕ
  pub position : Vector3 F
  pub rotation : Quaternion F

pub record TransformEntityStruct (F : Type 0) : Type 0 where
  pub sessionid : ℕ
  pub path : List (TransformStruct F)

pub record CreateEntityStruct (F : Type 0) : Type 0 where
  pub display_name : Text
  pub appearance : Text
  pub sessionid : ℕ
  pub mode : ℕ
  pub position : Vector3 F
  pub rotation : Quaternion F

pub record DestroyEntityStruct : Type 0 where
  pub sessionid : ℕ

-- A mutex is the Boolean "it is owned".
pub record User (F : Type 0) : Type 0 where
  pub address : Text
  pub port : ℕ
  pub check_objects_state : ℕ
  pub check_objects_radius : F
  pub check_objects_mutex : Bool
  pub send_queue : List Buffer
  pub load_level_queue : List Text
  pub console_queue : List Text
  pub objects_queue : List ℕ
  pub transform_player : TransformEntityStruct F
  pub create_entity_queue : List (CreateEntityStruct F)
  pub create_entity_mutex : Bool
  pub transform_entity_queue : List (TransformEntityStruct F)
  pub transform_entity_mutex : Bool
  pub destroy_entity_queue : List DestroyEntityStruct
  pub destroy_entity_mutex : Bool

pub record Player (F : Type 0) : Type 0 where
  pub user : User F
  pub login : LoginStruct

module _ {F : Type 0} where
  abbrev pub new_transform_entity : TransformEntityStruct F
  new_transform_entity = record { sessionid = 0; path = [] }

  -- `IsLoggedIn`
  unfoldable pub is_logged_in : Player F → Bool
  is_logged_in p = p.login.state == 2

  -- `IsLoggingOut`
  unfoldable pub is_logging_out : Player F → Bool
  is_logging_out p = p.login.state == 3

-- The constructors that need the floats 0 and 1.
module _ {F : Type 0} (fl : Floats F) where
  unfoldable pub new_transform : TransformStruct F
  new_transform = record {
    action = 0;
    position = vector3_zero fl;
    rotation = quaternion_identity fl;
  }

  unfoldable pub new_create_entity : CreateEntityStruct F
  new_create_entity = record {
    display_name = [];
    appearance = [];
    sessionid = 0;
    mode = 0;
    position = vector3_zero fl;
    rotation = quaternion_identity fl;
  }

  abbrev pub new_user : Text → ℕ → User F
  new_user address port = record {
    address = address;
    port = port;
    check_objects_state = 1;
    check_objects_radius = fl.zero_float;
    check_objects_mutex = false;
    send_queue = [];
    load_level_queue = [];
    console_queue = [];
    objects_queue = [];
    transform_player = new_transform_entity;
    create_entity_queue = [];
    create_entity_mutex = false;
    transform_entity_queue = [];
    transform_entity_mutex = false;
    destroy_entity_queue = [];
    destroy_entity_mutex = false;
  }

  abbrev pub new_player : Text → ℕ → Player F
  new_player address port = record { user = new_user address port; login = new_login }
