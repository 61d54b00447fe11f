-- ===== src/Ssh.antt =====
-- internal/sshagent: the wire format, the loaded identities, the request handlers of the agent
-- server, and the public part of encrypted key files.
pub mod Wire
pub mod OpenSsh
pub mod Identity
pub mod PrivateKey
pub mod KeeAgent
pub mod Server
pub mod Client
