-- ===== src/Delete/Queries.antt =====
-- The statements of plugins/format/classic/classic-delete.c; `%s` stands for the idents.
use libpreludedb.Base.{List, [], ◌∷◌, Bytes, text}

unfoldable pub alert_queries : List Bytes
alert_queries =
    text "DELETE FROM Prelude_Action WHERE _message_ident %s"
    ∷ text "DELETE FROM Prelude_AdditionalData WHERE _message_ident %s AND _parent_type = 'A'"
    ∷ text "DELETE FROM Prelude_Address WHERE _message_ident %s AND _parent_type != 'H'"
    ∷ text "DELETE FROM Prelude_Alert WHERE _ident %s"
    ∷ text "DELETE FROM Prelude_Alertident WHERE _message_ident %s"
    ∷ text "DELETE FROM Prelude_Analyzer WHERE _message_ident %s AND _parent_type = 'A'"
    ∷ text "DELETE FROM Prelude_AnalyzerTime WHERE _message_ident %s AND _parent_type = 'A'"
    ∷ text "DELETE FROM Prelude_Assessment WHERE _message_ident %s"
    ∷ text "DELETE FROM Prelude_Classification WHERE _message_ident %s"
    ∷ text "DELETE FROM Prelude_Reference WHERE _message_ident %s"
    ∷ text "DELETE FROM Prelude_Confidence WHERE _message_ident %s"
    ∷ text "DELETE FROM Prelude_CorrelationAlert WHERE _message_ident %s"
    ∷ text "DELETE FROM Prelude_CreateTime WHERE _message_ident %s AND _parent_type = 'A'"
    ∷ text "DELETE FROM Prelude_DetectTime WHERE _message_ident %s"
    ∷ text "DELETE FROM Prelude_File WHERE _message_ident %s"
    ∷ text "DELETE FROM Prelude_FileAccess WHERE _message_ident %s"
    ∷ text "DELETE FROM Prelude_FileAccess_Permission WHERE _message_ident %s"
    ∷ text "DELETE FROM Prelude_Impact WHERE _message_ident %s"
    ∷ text "DELETE FROM Prelude_Inode WHERE _message_ident %s"
    ∷ text "DELETE FROM Prelude_Checksum WHERE _message_ident %s"
    ∷ text "DELETE FROM Prelude_Linkage WHERE _message_ident %s"
    ∷ text "DELETE FROM Prelude_Node WHERE _message_ident %s AND _parent_type != 'H'"
    ∷ text "DELETE FROM Prelude_OverflowAlert WHERE _message_ident %s"
    ∷ text "DELETE FROM Prelude_Process WHERE _message_ident %s AND _parent_type != 'H'"
    ∷ text "DELETE FROM Prelude_ProcessArg WHERE _message_ident %s AND _parent_type != 'H'"
    ∷ text "DELETE FROM Prelude_ProcessEnv WHERE _message_ident %s AND _parent_type != 'H'"
    ∷ text "DELETE FROM Prelude_SnmpService WHERE _message_ident %s"
    ∷ text "DELETE FROM Prelude_Service WHERE _message_ident %s"
    ∷ text "DELETE FROM Prelude_Source WHERE _message_ident %s"
    ∷ text "DELETE FROM Prelude_Target WHERE _message_ident %s"
    ∷ text "DELETE FROM Prelude_ToolAlert WHERE _message_ident %s"
    ∷ text "DELETE FROM Prelude_User WHERE _message_ident %s"
    ∷ text "DELETE FROM Prelude_UserId WHERE _message_ident %s"
    ∷ text "DELETE FROM Prelude_WebService WHERE _message_ident %s"
    ∷ text "DELETE FROM Prelude_WebServiceArg WHERE _message_ident %s"
    ∷ []

unfoldable pub heartbeat_queries : List Bytes
heartbeat_queries =
    text "DELETE FROM Prelude_AdditionalData WHERE _parent_type = 'H' AND _message_ident %s"
    ∷ text "DELETE FROM Prelude_Address WHERE _parent_type = 'H' AND _message_ident %s"
    ∷ text "DELETE FROM Prelude_Analyzer WHERE _parent_type = 'H' AND _message_ident %s"
    ∷ text "DELETE FROM Prelude_AnalyzerTime WHERE _parent_type = 'H' AND _message_ident %s"
    ∷ text "DELETE FROM Prelude_CreateTime WHERE _parent_type = 'H' AND _message_ident %s"
    ∷ text "DELETE FROM Prelude_Node WHERE _parent_type = 'H' AND _message_ident %s"
    ∷ text "DELETE FROM Prelude_Process WHERE _parent_type = 'H' AND _message_ident %s"
    ∷ text "DELETE FROM Prelude_ProcessArg WHERE _parent_type = 'H' AND _message_ident %s"
    ∷ text "DELETE FROM Prelude_ProcessEnv WHERE _parent_type = 'H' AND _message_ident %s"
    ∷ text "DELETE FROM Prelude_Heartbeat WHERE _ident %s"
    ∷ []
