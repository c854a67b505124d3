-- ===== src/Lib.antt =====
-- Verification library of the lidar dashboard server. The paths of its code are below
-- dashboard/server/src.
--
-- The server receives snapshots from lidar PCs, each the list of the objects that one PC sees at
-- one time, and stores tracks, incidents, events, a log and daily counts. It talks to an integrated
-- control board over a serial protocol of 10-byte frames, and serves a dashboard to users who
-- log in, whom a super admin manages, who sign up by request and who reset a forgotten password with
-- a code sent by email. Wrongway and ControlBoard stand alone; Auth, Accounts, Codes and Signup
-- build on one another, on the same table of users.
--
-- Wrongway models domains/wrongway/wrongway.service.js. Model has the constants of
-- wrongway.constants.js, the rows of the tables and the snapshot as the adapter hands it on; Db is
-- the tables that the service uses. Validate has validateSnapshot, validateObjects,
-- findSourceDevice and toKstStatDate; Rows has incrementDailyStat, ensureActiveIncident and
-- createTrafficEvent; Process has processObject and the loop over the objects; Receive has
-- resolveIncidentIfNeeded, deactivateMissingTracks, the transaction, the response and
-- processSnapshot; EventStatus has updateEventStatus. Every function takes the database and
-- returns the new one. A call of the Prisma client is the function of Prelude.Tables that does the
-- same to a list of rows. The transaction runs to its end: that a failure of the database undoes
-- it is the database's own promise. A new row takes the next row id; an update of a track takes one
-- too and does not use it. Snapshots run one after the other, as the queue of enqueueBySource makes
-- those of one source; that two sources of one zone run at once is not modelled.
--
-- ControlBoard models domains/external-ingest/protocol/controlBoardProtocol.js. Packet has
-- normalizePacket, parseByteToken, toHex and toHexString; Crc has calculateCrc8Smbus, with the
-- register of 8 bits written out as a remainder by 256; Protocol has the tables of labels,
-- commands and aliases; Parser has parseControlBoardPacket and buildControlBoardPacket. Service
-- models domains/control-board/controlBoard.service.js, with the TCP client as a parameter; Ingest
-- models the board's part of domains/external-ingest: its adapter and externalIngest.service.js.
-- Frames, Build, HexText, History and Broadcast hold the theorems.
--
-- Auth models domains/auth/auth.service.js and middlewares/auth.middleware.js. Sessions has login,
-- refreshAccessToken, logout and authenticateToken, each of which runs to its end before the next;
-- Tickets has the web socket's tickets, with verifyAndConsumeWebSocketTicket in the two steps
-- between which other requests run. jsonwebtoken, bcrypt and the hash are the parameter Library, and
-- Lawful and Unexpired say what jsonwebtoken promises. TicketUse has the steps of the server over
-- its tickets, LoggedOut the steps over its sessions.
--
-- Accounts models utils/credential-policy.js (Policy, with its regular expressions as patterns that
-- Prelude.Patterns matches) and domains/users/users.service.js: Fields has the validation of the
-- fields, Users the creation, Updates the update and the deactivation, Passwords the three operations
-- on passwords, Routes the routes of users.routes.js with authenticateToken, requireRole and the
-- handlers. A service gives a Reply, a value or the status code of the error that it throws. A request
-- runs to its end before the next; in particular the checks of updateUser and deactivateUser, which
-- the code makes before its transaction, are not separated from it, so that two super admins who
-- deactivate each other at the same moment are outside the model. Outcome is the abstract view of the
-- routes, Moves the steps over requests, logins and logouts.
--
-- Codes models the codes sent by email: the password reset of domains/auth/auth.service.js, the
-- proof of an email of domains/signup-requests/signupRequests.service.js, and
-- utils/email-verification-maintenance.js. Calls has the single writes and the transactions, which
-- nothing comes between; Clients has the requests, each as the uses of the database that it makes
-- one after the other with what follows from each answer; Run interleaves any number of them in any
-- order, with a log of the writes and of the comparisons of a code, which are steps of their own. The code that is drawn, the delivery of a mail and the tokens of
-- jsonwebtoken are arguments. A new row takes an id that no other row ever has, as cuid promises.
--
-- Signup models the rest of signupRequests.service.js: Maintenance, Requests, Listing and Review have
-- its operations, Actions what changes the requests, Life the life of a request as a step relation.
-- A day is 24 hours there.
--
-- Prelude holds the tests on native numbers, lists, texts as lists of character codes, patterns, and
-- tables.
--
-- The loops are over lists; the rounds of the CRC are a fixed 8 for each byte, and the digits of a
-- number in ControlBoard.Packet run on fuel of one more than the number, which has fewer digits.
-- Times are natural numbers of milliseconds. Letters outside ASCII keep their case.
--
-- Not modelled: the adapter from the JSON payload, the history queries and test streams of the
-- wrong-way service, the list of users, the rate limits, the other services, the views and the
-- shell of the server.
pub mod Prelude
pub mod ControlBoard
pub mod Wrongway
pub mod Auth
pub mod Accounts
pub mod Codes
pub mod Signup
