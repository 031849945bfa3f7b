-- ===== src/Messages.antt =====
-- src/messages/messages.hpp and src/messages/json/packer.hpp, with the packer of
-- contrib/google/tagged_json.hpp that they call. A tagged tuple is a record; its tags, in the order
-- of the declaration, are what `members` lists. nlohmann::json is the parameter `Json`.
pub mod Commands
pub mod Json
pub mod Client
pub mod Server
pub mod RoundTrip
