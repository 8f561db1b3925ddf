-- ===== src/Network/Receive/Reading.antt =====
-- The structures of class Receive, read from the bytes that describe them.
use starfall.Base.{ℕ, ◌≡◌, sym, ap, List, [], ◌∷◌, ◌++◌, length, All, subst}
use starfall.Network.Runtime.{Text, Floats, Vector3, Quaternion, IsUint, IsAscii}
use starfall.Network.Buffer.Writing.{uint32_bytes, string_bytes}
use starfall.Network.Buffer.Reading.{
  Reads, >>=-Reads, map-Reads, pure-Reads, read_uint32-Reads, read_string-Reads, read_float-Reads,
}
use starfall.Network.Structs.{
  LoginStruct, TransformStruct, TransformEntityStruct, CreateEntityStruct,
}
use starfall.Network.Send.Bodies.{
  login_bytes, vector_bytes, quaternion_bytes, transform_bytes, path_bytes,
}
use starfall.Network.Receive.{
  read_login, read_vector, read_quaternion, read_create, read_transform, read_path,
  read_transform_entity,
}

-- Text that survives the trip: ASCII, of a length that a `uint` holds.
abbrev pub IsPlain : Text → Type 0
IsPlain s = All IsAscii s × IsUint (length s)

pub record IsLogin (l : LoginStruct) : Type 0 where
  pub state_fits : IsUint l.state
  pub userid_fits : IsUint l.userid
  pub usertype_fits : IsUint l.usertype
  pub username_plain : IsPlain l.username
  pub password_plain : IsPlain l.password

-- `LoginReply` reads back every login structure that `LoginData` writes, if its numbers are `uint`s
-- and its texts are ASCII.
pub read_login-Reads : (l : LoginStruct) → IsLogin l → Reads read_login (login_bytes l) l
unfolding read_login
read_login-Reads l h = >>=-Reads _ (read_uint32-Reads l.state h.state_fits) (
    >>=-Reads _ (read_uint32-Reads l.userid h.userid_fits) (
      >>=-Reads _ (read_uint32-Reads l.usertype h.usertype_fits) (
        >>=-Reads _ (read_string-Reads l.username h.username_plain.0 h.username_plain.1)
          (map-Reads _ (read_string-Reads l.password h.password_plain.0 h.password_plain.1)))))

module _ {F : Type 0} (fl : Floats F) where
  read_vector-Reads : (v : Vector3 F) → Reads (read_vector fl) (vector_bytes fl v) v
  unfolding read_vector
  read_vector-Reads v =
      >>=-Reads _ (read_float-Reads fl v.x)
        (>>=-Reads _ (read_float-Reads fl v.y) (map-Reads _ (read_float-Reads fl v.z)))

  read_quaternion-Reads : (q : Quaternion F) → Reads (read_quaternion fl) (quaternion_bytes fl q) q
  unfolding read_quaternion
  read_quaternion-Reads q = >>=-Reads _ (read_float-Reads fl q.x) (
      >>=-Reads _ (read_float-Reads fl q.y)
        (>>=-Reads _ (read_float-Reads fl q.z) (map-Reads _ (read_float-Reads fl q.w))))

  read_transform-Reads :
      (t : TransformStruct F) → IsUint t.action → Reads (read_transform fl) (transform_bytes fl t) t
  unfolding read_transform
  read_transform-Reads t h =
      >>=-Reads _ (read_uint32-Reads t.action h) (
        >>=-Reads _ (read_vector-Reads t.position) (map-Reads _ (read_quaternion-Reads t.rotation)))

  abbrev pub HasAction : TransformStruct F → Type 0
  HasAction t = IsUint t.action

  pub read_path-Reads :
      (path : List (TransformStruct F))
      → All HasAction path
      → Reads (read_path fl (length path)) (path_bytes fl path) path
  unfolding read_path
  read_path-Reads [] h = pure-Reads []
  read_path-Reads (t ∷ path) (ht, h) =
      >>=-Reads _ (read_transform-Reads t ht) (map-Reads _ (read_path-Reads path h))

  -- The bytes of one entity of a transform packet, and of one of a create packet.
  abbrev pub transform_entity_bytes : TransformEntityStruct F → List ℕ
  transform_entity_bytes t =
      uint32_bytes t.sessionid ++ (uint32_bytes (length t.path) ++ path_bytes fl t.path)

  abbrev pub create_bytes : CreateEntityStruct F → List ℕ
  create_bytes c =
      uint32_bytes c.sessionid
      ++ (uint32_bytes c.mode
          ++ (string_bytes c.display_name
              ++ (vector_bytes fl c.position ++ quaternion_bytes fl c.rotation)))

  pub record IsTransform (t : TransformEntityStruct F) : Type 0 where
    pub sessionid_fits : IsUint t.sessionid
    pub length_fits : IsUint (length t.path)
    pub actions_fit : All HasAction t.path

  -- `appearance` is not sent.
  pub record IsCreate (c : CreateEntityStruct F) : Type 0 where
    pub sessionid_fits : IsUint c.sessionid
    pub mode_fits : IsUint c.mode
    pub name_plain : IsPlain c.display_name
    pub appearance_empty : c.appearance ≡ []

  pub read_transform_entity-Reads :
      (t : TransformEntityStruct F)
      → IsTransform t
      → Reads (read_transform_entity fl) (transform_entity_bytes t) t
  unfolding read_transform_entity
  read_transform_entity-Reads t h = >>=-Reads _ (read_uint32-Reads t.sessionid h.sessionid_fits) (
      >>=-Reads _ (read_uint32-Reads (length t.path) h.length_fits)
        (map-Reads _ (read_path-Reads t.path h.actions_fit)))

  pub read_create-Reads :
      (c : CreateEntityStruct F) → IsCreate c → Reads (read_create fl) (create_bytes c) c
  unfolding read_create
  read_create-Reads c h =
      subst (Reads (read_create fl) (create_bytes c))
        (ap (λ a. record c { appearance = a }) (sym h.appearance_empty))
        (>>=-Reads _ (read_uint32-Reads c.sessionid h.sessionid_fits) (
          >>=-Reads _ (read_uint32-Reads c.mode h.mode_fits) (
            >>=-Reads _ (read_string-Reads c.display_name h.name_plain.0 h.name_plain.1) (
              >>=-Reads _ (read_vector-Reads c.position)
                (map-Reads _ (read_quaternion-Reads c.rotation))))))
