-- ===== src/Shadow/ThreadLaws.antt =====
-- The whole life of the thread of jni/server/IOT_DeviceShadow.cpp: it stays inside its objects, and what
-- it asks of the SDK, in order.
use java_iotwrap.Common.{ℕ, List, [], ◌∷◌, ◌++◌, Option, Bytes, map}
use java_iotwrap.StdMap.{StdMap}
use java_iotwrap.Shadow.{
  SdkCall, register_attribute, delete_attribute, control_register, pull, destroy, Shadow,
}
use java_iotwrap.Shadow.Turns.{turns_calls}

-- What the thread asks of the SDK from its start to its end.
abbrev pub thread_calls : ℕ → List Bytes → List (Option Bytes) → List SdkCall
thread_calls h names os =
    map (register_attribute h) names
    ++ (control_register h
        ∷ pull h
        ∷ (turns_calls h os ++ (map (delete_attribute h) names ++ destroy h ∷ [])))
