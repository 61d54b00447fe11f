-- ===== src/Lib.antt =====
-- kpxcd serves KeePass databases to a desktop session: it opens KDBX files, keeps them decrypted in
-- memory, and offers their entries through the Secret Service on D-Bus and their keys through an SSH
-- agent. This library models its own logic, translated from the Go sources under internal/.
--
-- The parts and their files:
-- Config: internal/config/config.go. `validate` is Validate, with the loop as `check_databases`.
-- Pool.Database, Pool.Save: internal/dbpool/save.go. A save is a function of the disk and of a
--   `World`, which says what other processes do to the file before each look at it and which system
--   calls fail. `update_and_save` is UpdateAndSave, `save_locked` saveLocked, `atomic_encode`
--   atomicEncode; the smaller functions are the code from one step on.
-- Pool.Manage, Pool.Entries, Pool.Wipe: internal/dbpool/pool.go and wipe.go. The pool is a map of
--   databases, the events in the channel and the numbers of the running file watchers.
-- Pam, Pam.Unlock: internal/pamcred/pamcred.go, internal/daemon/pam.go and pamsocket.go, with
--   CreateDatabase of internal/dbpool/create.go and WritePrivateFile of internal/xdg/xdg.go.
-- Ssh.Wire, Ssh.OpenSsh, Ssh.Identity, Ssh.Server: internal/sshagent/protocol.go, key.go, manager.go
--   and server.go. A connection is the list of the bytes that the client sends.
-- Ssh.PrivateKey, Ssh.KeeAgent: private key files of key.go, and internal/sshagent/keeagent.go, which
--   finds the SSH keys among the attachments of entries.
-- Ssh.Client: internal/sshagent/client.go. The other agent is a state whose steps may fail.
-- SecretService.Entries, Search, Write, NotifyCache, Session: internal/secretservice/attributes.go,
--   write.go, notifycache.go (with the cache key of access.go) and session.go.
-- SecretService.Paths, DiffieHellman, Service: service.go of the same package, with the object paths
--   of item.go and the policy of access.go. The open databases are a heap, since collections point at
--   them; `Service.Lifecycle` has every request and event as a step. Closing a session is none: nothing
--   in the program calls `Session.Close`, and no session object is exported.
-- SecretService.Items: the matching, the fields and the places of items in write.go, and the requests
--   CreateItem, Delete and SetSecret of collection.go and item.go on top of `update_and_save`.
-- DbusApi: internal/dbusapi/dbusapi.go, one function per method of org.keepassxc.Daemon.
-- Daemon: internal/daemon/daemon.go, automatic unlocking and the way of an event from the pool to the
--   SSH agent and the Secret Service.
-- Keepass, Text: the data of gokeepasslib and the functions of Go's library that these parts use.
-- Prelude: shared types, Boolean tests, lists, finite maps and results. Examples: concrete runs.
--
-- How the parts interact: the pool sends an event when a database is opened or locked; the daemon
-- hands it to the agent, which loads or drops the keys, and to the Secret Service, which adds or removes
-- a collection. Secret Service writes change the groups of a database inside UpdateAndSave. A login
-- opens the default database with the sealed password.
--
-- Numbers are natural numbers; 32-bit and 8-bit values are reduced where the code reduces them. Maps
-- are association lists, whose order stands for Go's unspecified order. Locks make each operation
-- one step. The only fuel is that of the agent's connection: one more than the number of bytes sent
-- is enough, since every message takes at least five. gokeepasslib, age, x/crypto/ssh, AES, hashes,
-- Unicode tables and the file system are records of functions with the laws that are used.
--
-- Not modelled: objects, signals and introspection on D-Bus, prompts, goroutines and listeners, file
-- watching, the text of notifications, making and importing SSH keys, FIDO2, the loading of the
-- configuration, logging and the command line. Where the code panics on a nil root, the models
-- of a search and of creating an item return; a file that is there can always be read.
pub mod Prelude
pub mod Text
pub mod Config
pub mod Keepass
pub mod Ssh
pub mod Pam
pub mod Pool
pub mod SecretService
pub mod Daemon
pub mod DbusApi
pub mod Examples
