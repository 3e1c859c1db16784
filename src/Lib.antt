-- ===== src/Lib.antt =====
-- A verification library for the backend of a recruitment platform (NestJS, Prisma, PostgreSQL).
-- Recruiters post jobs, candidates apply with a CV, applications move along a pipeline, interviews
-- are scheduled, and the two sides of a hired application can chat. Each module of src/modules is a
-- hexagon: entities with their rules, handlers of commands, repositories over the database, ports to
-- the other modules, and events. The library models the part that decides, and proves what a
-- handler may do to the database and to the events.
--
-- How the code is rendered:
--   * A class of entities is a record, its methods are functions to `Result`: a method that throws
--     gives no entity, as every caller drops the object. A class of exceptions is a constructor, with
--     the category and the code that it passes on.
--   * A handler is an `Action` (Prelude/Action.antt): it takes the world, and gives a result and the
--     world afterwards. What it wrote before it threw stays written, so that a failed request changes
--     nothing is a theorem.
--   * The database is a parameter of each module. In Application, Interview, Chat, Job and Auth it is
--     an operation per method of the repository, and a record of what the constraints and
--     transactions promise: an insert or an update goes through with the stated effect or changes
--     nothing; a failure is a unique violation or another one. In Permission, User, Cv, JobAlert and
--     Company the repository's methods are functions on the tables, and a database commits such a
--     change or fails (Common/Tables). Each such record has an instance in memory, which the tests
--     run. Lookups into other modules are read-only ports, so they are functions.
--   * Identifiers are numbers, times are milliseconds as natural numbers, `now` and fresh identifiers
--     are arguments. A string that the code only passes on is a String; text that the code looks into
--     is a list of UTF-16 code units (Common/Text.antt).
--   * Every handler runs to its end before the next one, unless a theorem says otherwise: the races
--     are stated over the two halves of a handler, before and after its check.
--   * Recursion is structural, on lists of requests, rows or code units. The loops of the digest and
--     of the search for a slug have fuel: one unit more than there are rows, which is shown to be
--     enough.
--
-- Which file models what:
--   Prelude            shared names, Boolean tests, lists, rows of a table, the monad of handlers
--   Common/Exceptions  src/common/exceptions/domain.exception.ts
--   Common/Filter      src/common/filters/http-exception.filter.ts (GlobalExceptionFilter.catch)
--   Common/Database    src/common/utils/prisma-error.util.ts (isUniqueConstraintViolation)
--   Common/Tables      a database that commits a change of its tables, or fails and changes nothing
--   Common/Text        trim and slice of ECMAScript
--   Application        src/modules/application: Status is the transition table of
--                      domain/value-objects/application-status.vo.ts, Entity is JobApplication,
--                      Repository its repositories, Handlers are ApplyJobHandler,
--                      UpdateApplicationStatusHandler and WithdrawApplicationHandler
--   Interview          src/modules/interview: Entity is InterviewSchedule, Handlers are
--                      ScheduleInterviewHandler, RescheduleInterviewHandler, CancelInterviewHandler,
--                      CompleteInterviewHandler and MarkInterviewNoShowHandler
--   FileUpload/Key     src/modules/file-upload/domain/value-objects/upload-folder.vo.ts
--   Chat               src/modules/chat: Entity holds Message and Conversation, Repository the two
--                      infrastructure repositories over a database, Handlers the five commands,
--                      RateLimiter ChatRateLimiterService with its script for Redis, Presence
--                      ChatPresenceService, Gateway the connections, sends and reads of ChatGateway
--                      with ChatEventsListener
--   Job                src/modules/job: Entity is Job with SalaryRange, Handlers are the commands to
--                      create, update, close, reopen, delete and expire jobs
--   Auth               src/modules/auth: Database holds the tables of refresh tokens and one-time codes,
--                      Service the refresh, exchange and logout of AuthService, VerifyEmailHandler,
--                      ResetPasswordHandler and ChangePasswordHandler, Login LoginHandler, Lockout
--                      LoginAttemptRedisAdapter
--   Permission         src/modules/permission: Service is UpdateRolePermissionsHandler and
--                      PermissionsService with its cache, and PermissionGuard of src/common/guards
--   User               src/modules/user: Handlers are AdminUpdateUserStatusHandler and
--                      UpdateProfileHandler
--   Cv                 src/modules/cv: Cv, Files is CvDomainService.validateUploadedFile, Handlers are
--                      the commands, with the storage, and the purge
--   JobAlert           src/modules/job-alert: SavedSearches are the commands on saved searches, Digest
--                      is SendJobAlertDigestsHandler
--   Company            src/modules/company: Slug is generateUniqueSlug, Tables the entity and the rows,
--                      Handlers are CreateCompanyHandler, UpdateCompanyHandler, DeleteCompanyHandler
-- Under a component, the modules below Handlers and Entity hold the proofs and are named for what
-- they show; Tests holds concrete runs.
--
-- How the parts interact: an application that ends is closed to interviews (the interview module
-- keeps its own list of those statuses, compared in Interview/Handlers/FinalStatus), a hired one can
-- have a conversation, a message names its attachments by keys of FileUpload/Key, the gateway sends
-- through the limiter, the handler of messages and the presence service, a login goes
-- through the lockout, blocking a user revokes the refresh tokens of the auth module, a CV that an
-- ongoing application refers to is not deleted, the account of a company's owner carries the link
-- that the job module asks for, and the filter turns the exceptions into responses.
--
-- Bounds: the constants of the code (20 sends and 30 reads in 10000 ms, 5 attachments,
-- 20 saved searches, batches of 200) are used as they are; the limits of the lockout are arguments, as
-- they come from the configuration.
--
-- Not modelled: registration, forgotten passwords and social login, AI, bookmarks, categories, skills,
-- notifications and mail; the queries (lists, pages, statistics) of the modelled modules; the
-- controllers, their request classes and their validation, which is a library's; the text of mails,
-- log lines, and the framework's wiring. Redis, the storage of files, the signing of URLs and tokens,
-- the comparison of passwords and the tables of Unicode are parameters.
pub mod Prelude
pub mod Common
pub mod Application
pub mod Interview
pub mod FileUpload
pub mod Chat
pub mod Job
pub mod Auth
pub mod Permission
pub mod User
pub mod Cv
pub mod JobAlert
pub mod Company
