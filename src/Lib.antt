-- ===== src/Lib.antt =====
-- qdocdb, a document database of JSON values over a key-value store, with indexes, transactions,
-- observed queries and snapshots.
--
-- The parts, from the store upwards, and the files that model them (paths from the repository's
-- root):
--   * Qt.antt: what the sources use of Qt beyond its containers, as a parameter: encodings, doubles,
--     QDataStream, QJsonDocument. The laws that proofs rely on are documented behaviour;
--     Qt/Concrete.antt is an instance that keeps them. Json.antt holds QJsonValue.
--   * Serialize.antt (qdocdb/qdocutils.cpp, QDocSerialize): marshal and unmarshal.
--   * Utils.antt (qdocdb/qdocutils.cpp, QDocUtils): getJsonValueByPath, compare, multiply.
--   * Kv.antt and Kv/Interface.antt (qdocdb/qdockvinterface.h): the interface of a store, a record
--     with laws, which the collections take as a parameter. Kv/KvMap.antt (qdocdb/qdockvmap.cpp) and
--     Kv/LevelDb.antt (qdocdb/qdockvleveldb.cpp, over LevelDB as a parameter) implement it.
--   * IdGen.antt (qdocdb/qdocdbcommonconfig.cpp): ids, UUIDs and the configuration.
--   * Collection.antt (qdocdb/qdoccollection.cpp and .h): result codes and keys.
--     Collection/Iterator.antt: QDocCollection::iterator, which finds the version of a document that
--     a snapshot sees.
--   * Query.antt: checkValidR. Options.antt: applyOptions. Find.antt: find, findOne, count,
--     getModified and the reads of indexes and snapshots.
--   * Transaction.antt, Transaction/Insert.antt, Transaction/Remove.antt: QDocCollectionTransaction.
--     A method is a function from the state of the transaction to a result and a state. Its reads of
--     documents by id go to the database below it, as in the source; its reads by key see its writes.
--   * OpenCollection.antt, OpenCollection/Snapshots.antt and Snapshots/Shift.antt: an open
--     QDocCollection, its observers, the commit of a transaction, and the operations on snapshots.
--   * Database.antt (qdocdb/qdocdatabase.cpp): the table of a database's open collections.
--   * Link.antt (qdocdb/qdocdblinkbase.cpp): the frames of messages on a socket, and the requests that
--     wait for a lock. QVariantMap with its stream operators is a parameter. Link/Types.antt: the
--     types of messages and their names.
--   * Server.antt (qdocdb/qdocdbserver.cpp and .h): the state of QDocdbServer. Server/Receive.antt and
--     Receive/Cases.antt: receive, case by case, over Server/Operations.antt, the cases that work on
--     one collection; Server/Numbers.antt: getNextTransactionId; Server/Slots.antt: newConnection,
--     clientRemoved, observeQueryChanged, the event queue, and the steps of the server as a relation.
--     A pointer to a collection is the name of its database with an index, a client is a number. A
--     request is a record of what the server reads from a message. A use of a null pointer sets
--     `crashed`.
--   * Client.antt (qdocdb/qdocdbclient.cpp and .h): the state of QDocdbClient and its slots;
--     Client/Calls.antt: the calls, each a request and the wait for its reply; Client/Observing.antt:
--     observe, unobserve, subscriberDestroyed and onConnectTimer. Its requests and the messages that
--     it reads are those of the server. What happens while a call waits is a list of inputs.
-- Names are the source's in snake case (getJsonValueByLinkKey is get_json_value_by_link_key); loops
-- and branches that are functions of their own have names for what they do. Prelude.antt and the
-- files below it hold what the modules share; Examples.antt and below, data on which they are run.
--
-- State. A store is a value that operations pass on; emitted signals are a list. An iterator of a
-- store is the list of the entries that are left to visit. QHash and QMap are association lists, a
-- QString or a QByteArray is a list of code units or bytes, a double is its bit pattern. What an
-- uninitialised variable holds is a parameter (`junk`), and a run without a defined result is the
-- code `undefined_behaviour`.
--
-- Fuel. getJsonValueByPath takes the length of the path, of which each round drops a component; any
-- more gives the same value (by_path_fuel). The loop over documents takes one more than the number
-- of entries, and each round drops one. The passes of applyOptions take one more than the square of
-- the length of the reply, and each pass but the last undoes an inversion. readyRead takes one more
-- than the number of bytes on the socket, of which each round but the last reads at least one.
-- getNextTransactionId takes twice one more than the number of transactions, for a walk up to the
-- wrap of the int and one from 0 on; its int is a 32-bit pattern.
-- Snapshot ids are unsigned chars, with their wrap-around written out (% 256).
--
-- Not modelled: LevelDB itself; opening and closing a store by URL; printAll, which prints; how
-- the server listens and registers itself, and how the client finds its address; calls that a
-- subscriber makes while another call waits; the QML connector (qdocdb/qdocdbconnector.cpp), which
-- hands calls to a thread.
pub mod Prelude
pub mod Json
pub mod Qt
pub mod Utils
pub mod Server
pub mod Client
pub mod Serialize
pub mod Kv
pub mod Collection
pub mod Query
pub mod Options
pub mod Find
pub mod IdGen
pub mod Transaction
pub mod OpenCollection
pub mod Examples
pub mod Link
pub mod Database
