-- ===== src/Lib.antt =====
-- Starfall is a space game for many players: a client in UnityScript (Client/Assets), a server in
-- C++ with scripts in JavaScript (Server/Plugins/Script), and a web console in JavaScript
-- (Server/Plugins/Web). This library models the UnityScript and JavaScript code of the program.
--
-- Network models Client/Assets/Standard Assets/Network.js. The client and the server exchange packets
-- of a header of 16 bytes and a body. Class Send builds packets from the player's data and puts them
-- into the send queue; class GameClient moves them through the socket, and hands what arrives to the
-- handlers of class Receive, which fill the queues that the world scene empties.
--   Network/Runtime: text (lists of code units), bytes, and the interface `Floats`, which stands for
--   the type float with System.BitConverter.
--   Network/Buffer: class Buffer. WriteX is write_x, ReadX is read_x. Writing and Reading say which
--   bytes an operation appends and which it reads.
--   Network/Structs: the structures, class User and class Player.
--   Network/Send: class Send; packet is the part of Enqueue that builds a packet. Framing: the shape
--   of a packet; Bodies: the bytes of each body.
--   Network/Receive: class Receive; receive_each is the loop that its handlers share. Reading: the
--   structures read back; Queues: whole packets; Truncated: packets that end early; Frame: what no
--   handler touches.
--   Network/Client: class GameClient over the interface `TcpClient`, with Player.OnState and
--   Player.Logout (on_state, logout). Sending, Receiving, Login: what its methods do.
--   Network/Tests: runs at concrete inputs.
--
-- World models the part of Client/Assets/Scenes/WorldScene/WorldScript.js that works on the queues that
-- Network fills: class World, Timer, RemoteController and the controls.
--   World/Timer: class Timer and class Config, with times in whole microseconds.
--   World/Entities: Entity, RemoteControlledEntity with its targets, and the state of class World.
--   World/Destroying: UpdateDestroyEntities. Scans, Frame and Survivors say what it keeps.
--   World/Creating: UpdateCreateEntities. Populated is the invariant of the objects; Arrivals says
--   which entities are made.
--   World/Remote: Clear, AddTarget and Next of RemoteController, and add_remote_controls, the loop of
--   UpdateRemoteControls over the received paths. Following and Order say which paths entities follow;
--   Players, that the player's entity is left alone.
--   World/Remote/Motion: Move, and the whole of UpdateRemoteControls, over an interface Space for what
--   Unity computes on vectors and rotations. Remaining bounds the frames that the targets take; Gliding
--   is about the motion towards a target, Leaving about the end of a node, Resting about the last target.
--   World/Contents: classes Container and OpenerController, and OnContents, where Unity says which
--   buttons are pressed. Rows: the rows of an item; Presses: which
--   item a press belongs to; Layout: where the items are drawn.
--   World/View: class View, with the materials of a model as numbers. Jets: where Recolor colors; Lit:
--   the colors of the jets in each state.
--   World/Session: UpdateSession, UpdatePath and UpdateTimers. Packets: what they send; Paths: how
--   long the path becomes.
--   World/Controls: classes Controls, PlayerController and Lean, less the mouse, the camera and the
--   rotation of the ship. The handlers of the keys that turn it are one case of run_update each, and
--   updates, a Hashtable, is a list in any order. Invariant and Focus: what frames keep.
--   World/Frame: World.Update, less the controls of the player. World/Reachable: the steps of the world
--   and what holds after any of them.
--   World/Tests, World/Remote/Tests, World/Contents/Tests, World/View/Tests: runs at concrete inputs.
--
-- Scripts models scripts of Server/Plugins/Script.
--   Scripts/Inventory: equipped, equip and findEquipment of Entity/inventory.js, over an interface for
--   the names of slots. Equipping: when an item is put on; Covering: which slots are taken in the end;
--   Loading: load and default.
--   Scripts/Json: the values of the scripts, with objects as lists of properties in the order in which
--   a loop visits them. Lookup: what is read after a write.
--   Scripts/Mixins: eachObject, arrayToObject and objectToArray of Server/Plugins/Common/mixins.js, over
--   an interface for Underscore. RoundTrip: one after the other.
--   Scripts/Xml: Xml2Json of main.js, on a document that xmldoc has read. Shape: the properties of an
--   object while children are added; Uniform: what eachObject sees in the end.
--   Scripts/Appearance: Entity/appearance.js. Slots: the names of the slots of a document.
--   Scripts/Tests, Scripts/Documents: runs at concrete inputs.
--
-- Web models Server/Plugins/Web/app/app.js, the page that shows the log of the server. What jQuery does
-- to the document is a change of the state: a button is whether it is hidden and how many handlers its
-- click has, which all run, and a row is visible or not.
--   Web/Page: the rows, the buttons and the messages; the HTML of a message is left out.
--   Web/Filters: filters. Hiding: what they hide; Panel: the settings in the panel.
--   Web/Colors: toHex of Server/Plugins/Web/app/components.appearance.js, on numbers that are already
--   parsed. Reading: the number is read back.
--   Web/Components: Model of components.appearance.js, over an interface for Underscore and a function
--   for the operator ==. Numbering: the parts and their colors.
--   Web/Components/Styling: Model.data, on the materials that eachObject visits. Styled and Referring: the
--   numbers of a part; Sheets: the style sheet that the parts of a mesh share; Slots: that of a model.
--   Web/App: class App with login, console, news, more and updater, each method on the state of all.
--   Web/App/Events: handle, what the page does on a click, a timeout and a reply.
--   Web/Session: the pages that a login leads to. Pager: the button More as a state machine;
--   Pager/Asking: its requests; News: the button New; News/Announcing: runs of events; Polling: the
--   updater; Rows: what is shown; Rows/Lasting: how long a setting hides rows.
--   Web/Dump: the hexadecimal dump of a message in render of app.js, up to its HTML. An entry of
--   hexValues is a list of cells. Bytes: the bytes that it shows;
--   Words: which bytes a text has.
--   Web/Items: the forms Instance.Form and Types.Form of Server/Plugins/Web/items.js with the callbacks
--   that app.js sets, on the menus that stand in the page and the handlers of their buttons.
--   Web/Items/Handlers: handle, what the page does on a click, a choice and a reply. Counting: the
--   menus and their handlers; Showing and Choosing: which item type is shown; Properties: what is sent;
--   Sequences: what holds after any events.
--   Web/Tests and the Tests below Web/Components, Web/Dump and Web/Items: runs at concrete inputs.
--
-- Console models Client/Assets/Scenes/WorldScene/structures/House/ConsoleScript.js, a console in the
-- scene: ApplyToTexture is apply_to_texture, over the colors and the font as parameters. Bounds: where a
-- glyph is put.
--   Console/House: Recurse, LoadConsole, OnControlsFocus and Update, with the XML parser as a parameter
--   that may fail. Drawing: what is on the texture; Typing: what a frame does to the typed text.
--   Console/Tests: runs at concrete inputs.
--
-- Editor models Client/Assets/Scenes/EditCharacterScene/EditCharacterGuiScript.js, which chooses the
-- colors of a character and sends them as a line of the console.
--   Editor: EditCharacterItem, Start, the buttons of OnGUI (gui_parts), and OnDestroy, with a mesh that
--   maps the numbers of its materials to colors. Choosing: the colors that are selected; Mesh: the end
--   of the scene.
--   Editor/Saving: FindPart, BuildGroup and the button OK, which hands the text to Network. Entries: the
--   text of a group; Sending: what is sent.
--   Editor/Tests: runs at concrete inputs.
--
-- Base holds the shared names: tests on numbers, lists by native numbers, integers, and Action, a
-- state with exceptions in which what was written before a throw stays written.
--
-- Numbers: a uint is a natural number below 2 ^ 32, and assignments that can leave that range are
-- reduced by u32. i & 0xFF is i % 256 and i >> k is i / 2 ^ k. An int that only travels, such as
-- LoginStruct.state, is its bit pattern. Floats are only moved about, so their type is a parameter.
-- toLowerCase is modelled on the letters A to Z; other letters are taken to be small.
-- The function digits of Web/Colors, which stands for toString(16), takes fuel, and any number above
-- the one that is written is enough; no other function does: loops are recursions on the list or the
-- count that the source counts down; a while loop that shifts a queue until it is empty is a recursion
-- on the queue.
--
-- The frames of World/Remote/Resting are counted by a bound in microseconds and thousandths of a degree,
-- of which every frame takes one at least.
--
-- Not modelled: the threads themselves (a handler runs as one step, and a mutex is a flag that says
-- that it is owned), the log, the drawing of the scene, the mouse and the camera, the HTML of the web
-- console, the reading of the console's font, the dialog and the file of the character editor, and the C++ code.
pub mod Base
pub mod Network
pub mod World
pub mod Scripts
pub mod Web
pub mod Console
pub mod Editor
